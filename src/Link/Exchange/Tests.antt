-- ===== src/Link/Exchange/Tests.antt =====
-- A key with a leading zero, over a toy modulus that encrypts a number to itself.
use l2go.Prelude.{
  ℕ, zero, suc, ◌-◌, ◌*◌, ◌%◌, ◌^◌, ap, ◌∙◌, replicate, ◌≤◌, ◌<◌, ◌≡◌, ◌≢◌, ◌↔◌, refl, some, List,
  [], ◌∷◌, ◌++◌, All, arith, length, take, get_or,
}
use native.Mathlib.Nat.{mod-eq_of_lt, pow-suc, pow-zero}
use l2go.Packet.{le_value}
use l2go.Link.Exchange.{RsaKey, panics, new_blow_fish_key, write, handle_blow_fish_key}
use l2go.Link.Exchange.Laws.{agreed_key, handle_blow_fish_key-write}
use l2go.Link.Exchange.Bounds.{new_blow_fish_key_panics}

power_one : (n : ℕ) → n ^ 1 ≡ n
power_one n =
    let none_left : n ^ 0 ≡ 1 = pow-zero n in pow-suc n 0 ∙ ap (λ p. p * n) none_left ∙ omega arith

small : (m : ℕ) → m < 256 ^ 16 → m ^ 1 < 256 ^ 16
small m h = omega (arith, h, power_one m)

same_again : (m : ℕ) → m < 256 ^ 16 → (m ^ 1 % 256 ^ 16) ^ 1 % 256 ^ 16 ≡ m
same_again m h =
    ap (λ n. n % 256 ^ 16) (power_one (m ^ 1 % 256 ^ 16) ∙ mod-eq_of_lt (small m h) ∙ power_one m)
    ∙ mod-eq_of_lt h

abbrev toy : RsaKey
toy = record {
  modulus = 256 ^ 16;
  size = 17;
  public_exponent = 1;
  private_exponent = 1;
  fits = omega arith;
  large = omega arith;
  wide = omega arith;
  undoes = same_again;
}

abbrev key : List ℕ
key = 0 ∷ replicate 15 7

small_replicate : (n b : ℕ) → b < 256 → All (λ b. b < 256) (replicate n b)
small_replicate zero b h = tt
small_replicate (suc n) b h = (h, small_replicate n b h)

key_bytes : All (λ b. b < 256) key
key_bytes = (omega arith, small_replicate 15 7 (omega arith))

handle_blow_fish_key-write_example :
    (rest : List ℕ) × (write toy key ++ 0 ∷ 0 ∷ [] ≡ 0 ∷ rest)
    × (handle_blow_fish_key toy rest
        ≡ some (record { dynamic_blowfish_key = some (agreed_key 17 key) }))
    × ((agreed_key 17 key ≡ key) ↔ (get_or key 0 0 ≢ 0))
handle_blow_fish_key-write_example =
    handle_blow_fish_key-write toy key (0 ∷ 0 ∷ []) refl key_bytes (omega arith)

abbrev all_ones : List ℕ
all_ones = 255 ∷ 255 ∷ 255 ∷ 255 ∷ []

new_blow_fish_key_panics_example :
    (new_blow_fish_key all_ones ≡ panics)
    ↔ ((4 ≤ length all_ones) × (2 ^ 32 - 4 ≤ le_value (take 4 all_ones)))
new_blow_fish_key_panics_example =
    new_blow_fish_key_panics all_ones (omega arith, (omega arith, (omega arith, (omega arith, tt))))
