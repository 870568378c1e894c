-- ===== src/Link/Exchange/Bounds.antt =====
-- The lengths that the parser of the exchange takes.
use l2go.Prelude.{
  ℕ, zero, suc, ◌+◌, ◌-◌, ◌%◌, ◌^◌, ◌≤◌, ◌<◌, ◌≡◌, ◌≢◌, ◌↔◌, refl, sym, ap, ◌∙◌, true, false, List,
  [], ◌∷◌, ltb, length, take, drop, All, arith, inl, inr, Bool-cases, length-take,
}
use native.Mathlib.Nat.{pow-suc}
use l2go.Packet.{le_value}
use l2go.Link.Exchange.{encrypted_key, rejected, panics, new_blow_fish_key}

le_value_small : (bs : List ℕ) → All (λ b. b < 256) bs → le_value bs < 256 ^ length bs
unfolding le_value
le_value_small [] h = omega arith
le_value_small (b ∷ bs) h = omega (arith, h.0, le_value_small bs h.1, pow-suc 256 (length bs))

All-take : (n : ℕ) (bs : List ℕ) → All (λ b. b < 256) bs → All (λ b. b < 256) (take n bs)
All-take zero bs h = tt
All-take (suc n) [] h = tt
All-take (suc n) (b ∷ bs) h = (h.0, All-take n bs h.1)

size_small :
    (data' : List ℕ)
    → All (λ b. b < 256) data'
    → 4 ≤ length data'
    → le_value (take 4 data') < 2 ^ 32
size_small data' bytes long =
    let four : length (take 4 data') ≡ 4 = length-take 4 data' ∙ omega arith in
    let bound = le_value_small (take 4 data') (All-take 4 data' bytes) in
    let same : 256 ^ length (take 4 data') ≡ 2 ^ 32 = ap (λ n. 256 ^ n) four ∙ omega arith in
    omega (arith, bound, same)

rejected≢panics : rejected ≢ panics
rejected≢panics e = cc

encrypted_key≢panics : {bs : List ℕ} → encrypted_key bs ≢ panics
encrypted_key≢panics e = cc

too_short : (data' : List ℕ) → ltb (length data') 4 ≡ true → new_blow_fish_key data' ≡ rejected
unfolding new_blow_fish_key
too_short data' short = rw short refl

wrapped :
    (data' : List ℕ)
    → 4 ≤ length data'
    → 2 ^ 32 - 4 ≤ le_value (take 4 data')
    → le_value (take 4 data') < 2 ^ 32
    → new_blow_fish_key data' ≡ panics
unfolding new_blow_fish_key
wrapped data' long large small =
    let s = le_value (take 4 data') in
    let end : (4 + s) % 2 ^ 32 ≡ s - (2 ^ 32 - 4) = omega (arith, large, small) in
    let enough : ltb (length data') 4 ≡ false = ground arith in
    let all : ltb (length data') (s - (2 ^ 32 - 4)) ≡ false = ground (arith, small, long) in
    let before : ltb (s - (2 ^ 32 - 4)) 4 ≡ true = ground (arith, small, large) in
    rw (enough, end, all, before) refl

in_order :
    (data' : List ℕ) → le_value (take 4 data') < 2 ^ 32 - 4 → new_blow_fish_key data' ≢ panics
unfolding new_blow_fish_key
in_order data' small e =
    let s = le_value (take 4 data') in
    let end : (4 + s) % 2 ^ 32 ≡ 4 + s = omega (arith, small) in
    let after : ltb (4 + s) 4 ≡ false = ground arith in
    elim (Bool-cases (ltb (length data') 4)) [
      | inl short ↦ rejected≢panics (sym (too_short data' short) ∙ e)
      | inr long ↦ elim (Bool-cases (ltb (length data') (4 + s))) [
        | inl cut ↦
            let is : new_blow_fish_key data' ≡ rejected = rw (long, end, cut) refl in
            rejected≢panics (sym is ∙ e)
        | inr whole ↦
            let is : new_blow_fish_key data' ≡ encrypted_key (take s (drop 4 data')) =
              rw (long, end, whole, after) refl in
            encrypted_key≢panics (sym is ∙ e)
      ]
    ]

-- The packet that carries the key makes the login server panic exactly when it has the four bytes of a
-- size and they say more than 2 ^ 32 - 5: the end of the key wraps to before its start.
pub new_blow_fish_key_panics :
    (data' : List ℕ)
    → All (λ b. b < 256) data'
    → (new_blow_fish_key data' ≡ panics)
      ↔ ((4 ≤ length data') × (2 ^ 32 - 4 ≤ le_value (take 4 data')))
new_blow_fish_key_panics data' bytes = (
  λ e. elim (Bool-cases (ltb (length data') 4)) [
    | inl short ↦ absurd (rejected≢panics (sym (too_short data' short) ∙ e))
    | inr long ↦ elim (Bool-cases (ltb (le_value (take 4 data')) (2 ^ 32 - 4))) [
      | inl small ↦ absurd (in_order data' (ground (arith, small)) e)
      | inr large ↦ (ground (arith, long), ground (arith, large))
    ]
  ],
  λ h. wrapped data' h.0 h.1 (size_small data' bytes h.0),
)
