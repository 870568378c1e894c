-- ===== src/Link/Exchange/Laws.antt =====
-- The key that the two ends have after the exchange.
use l2go.Prelude.{
  ℕ, zero, suc, ◌+◌, ◌-◌, ◌*◌, ◌%◌, ◌^◌, ◌≤◌, ◌<◌, ◌≡◌, refl, ap, ◌∙◌, true, false, Option, none,
  some, List, [], ◌∷◌, ◌++◌, ◌==◌, if◌then◌else◌, ltb, leb, length, drop, get_or, ◌↔◌, ◌≢◌,
  replicate, All, arith, inl, inr, Option-cases, Bool-cases, ap₂, length-append, length-replicate,
  take-append, drop-append,
}
use mathlib.Core.List.{append_assoc, append-nil}
use native.Mathlib.Nat.{mod-lt}
use l2go.Prelude.Nested.{is_empty}
use l2go.Packet.{le_bytes, le_value, new_writer}
use l2go.Packet.Fields.{byte}
use l2go.Packet.RoundTrip.{field_bytes, fields_bytes, write_fields-eq}
use l2go.Packet.Cursor.{length-le_bytes, le_value-le_bytes}
use l2go.Link.Exchange.{
  RsaKey, set_bytes, encrypted_key, new_blow_fish_key, start_index, after_zero, actual_key, key_in,
  encrypted, blow_fish_key_fields, write, rsa_decrypt_no_padding, decrypt_key, handle_blow_fish_key,
}
use l2go.Link.Exchange.Numbers.{
  be_bytes, length-be_bytes, zeros, padded-big_bytes, be_bytes-set_bytes, set_bytes-be_bytes,
  set_bytes_small,
}

-- The bytes from the first one that is not zero.
unfoldable pub drop_zeros : List ℕ → List ℕ
drop_zeros [] = []
drop_zeros (b ∷ bs) = let rest = drop_zeros bs in if b == 0 then rest else b ∷ bs

after_zero-none : (o : Option ℕ) → after_zero o ≡ none → o ≡ none
after_zero-none none e = refl
after_zero-none (some i) e = absurd cc

after_zero-some :
    (o : Option ℕ) (i : ℕ) → after_zero o ≡ some i → (j : ℕ) × (o ≡ some j) × (i ≡ suc j)
after_zero-some none i e = absurd cc
after_zero-some (some j) i e = (j, refl, cc)

start_index-none :
    (bs : List ℕ) → start_index bs ≡ none → (drop_zeros bs ≡ []) × (bs ≡ replicate (length bs) 0)
unfolding start_index drop_zeros
start_index-none [] e = (refl, refl)
start_index-none (b ∷ bs) e = elim (Bool-cases (b == 0)) [
  | inl zero_byte ↦
      let is_zero : b ≡ 0 = ground arith in
      let rest : start_index bs ≡ none =
        after_zero-none (start_index bs) (ground (arith, e, zero_byte)) in
      let (dropped, all) = start_index-none bs rest in
      (ground (arith, zero_byte, dropped), ap₂ ◌∷◌ is_zero all)
  | inr other ↦ absurd (ground (arith, e, other))
]

start_index-some :
    (bs : List ℕ) (i : ℕ)
    → start_index bs ≡ some i
    → (drop i bs ≡ drop_zeros bs) × (is_empty (drop_zeros bs) ≡ false)
unfolding start_index drop_zeros
start_index-some [] i e = absurd cc
start_index-some (b ∷ bs) i e = elim (Bool-cases (b == 0)) [
  | inl zero_byte ↦
      let (j, rest, next) = after_zero-some (start_index bs) i (ground (arith, e, zero_byte)) in
      let (dropped, more) = start_index-some bs j rest in rw (next, zero_byte) (dropped, more)
  | inr other ↦ let first : i ≡ 0 = ground (arith, e, other) in rw (first, other) (refl, refl)
]

length-drop_zeros : (bs : List ℕ) → length (drop_zeros bs) ≤ length bs
unfolding drop_zeros
length-drop_zeros [] = omega arith
length-drop_zeros (b ∷ bs) = ground (arith, length-drop_zeros bs)

drop_zeros-replicate : (n : ℕ) (bs : List ℕ) → drop_zeros (replicate n 0 ++ bs) ≡ drop_zeros bs
unfolding drop_zeros
drop_zeros-replicate zero bs = refl
drop_zeros-replicate (suc n) bs = drop_zeros-replicate n bs

key_in-eq :
    (bs : List ℕ)
    → length (drop_zeros bs) < 22
    → key_in bs ≡ (if is_empty (drop_zeros bs) then replicate (length bs) 0 else drop_zeros bs)
unfolding key_in actual_key
key_in-eq bs short = elim (Option-cases (start_index bs)) [
  | inl e ↦ let (dropped, all) = start_index-none bs e in rw (e, dropped, key_in) all
  | inr (i, e) ↦
      let (dropped, more) = start_index-some bs i e in
      let small : leb 22 (length (drop_zeros bs)) ≡ false = ground (arith, short) in
      rw (e, dropped, small, more, key_in) refl
]

-- What the login server takes for a key: the key without its leading zeros, or as many zeros as the
-- modulus has bytes for the key of zeros alone.
pub agreed_key : ℕ → List ℕ → List ℕ
agreed_key size key = let rest = drop_zeros key in if is_empty rest then replicate size 0 else rest

shorter :
    (size b : ℕ) (bs : List ℕ)
    → length (b ∷ bs) ≡ 16
    → 16 < size
    → (b == 0) ≡ true
    → agreed_key size (b ∷ bs) ≢ b ∷ bs
unfolding agreed_key drop_zeros
shorter size b bs long wide zero_byte same = ground (
  arith,
  zero_byte,
  long,
  wide,
  ap length same,
  length-drop_zeros bs,
  length-replicate {A = ℕ} size 0,
)

agreed_key-same :
    (size : ℕ) (key : List ℕ)
    → length key ≡ 16
    → 16 < size
    → (agreed_key size key ≡ key) ↔ (get_or key 0 0 ≢ 0)
unfolding agreed_key drop_zeros
agreed_key-same size [] long wide = absurd (omega (arith, long))
agreed_key-same size (b ∷ bs) long wide = elim (Bool-cases (b == 0)) [
  | inl zero_byte ↦
      let is_zero : b ≡ 0 = ground arith in
      (λ same. absurd (shorter size b bs long wide zero_byte same), λ other. absurd (other is_zero))
  | inr other ↦
      let apart : b ≢ 0 = λ e. ground (arith, e, other) in (λ same. apart, λ e. rw other refl)
]

new_blow_fish_key-eq :
    (cipher padding : List ℕ)
    → length cipher < 2 ^ 31
    → new_blow_fish_key (le_bytes 4 (length cipher) ++ (cipher ++ padding)) ≡ encrypted_key cipher
unfolding new_blow_fish_key
new_blow_fish_key-eq cipher padding small =
    let n = length cipher in
    let body = cipher ++ padding in
    let four = length-le_bytes 4 n in
    let size : le_value (le_bytes 4 n) ≡ n = le_value-le_bytes 4 n (omega (arith, small)) in
    let whole : length (le_bytes 4 n ++ body) ≡ 4 + (n + length padding) =
      length-append (le_bytes 4 n) body ∙ omega (arith, four, length-append cipher padding) in
    let end : (4 + n) % 2 ^ 32 ≡ 4 + n = omega (arith, small) in
    let enough : ltb (4 + (n + length padding)) 4 ≡ false = ground arith in
    let all : ltb (4 + (n + length padding)) (4 + n) ≡ false = ground arith in
    let after : ltb (4 + n) 4 ≡ false = ground arith in
    rw
      (
        take-append 4 (le_bytes 4 n) body four,
        drop-append 4 (le_bytes 4 n) body four,
        size,
        whole,
        end,
        enough,
        all,
        after,
        take-append n cipher padding refl,
      )
      refl

module _ (rsa : RsaKey) where
  value_small :
      (key : List ℕ) → length key ≡ 16 → All (λ b. b < 256) key → set_bytes 0 key < rsa.modulus
  value_small key long bytes =
      let bound = set_bytes_small 0 key bytes in
      let same : (0 + 1) * 256 ^ length key ≡ 256 ^ 16 =
        ap (λ n. (0 + 1) * 256 ^ n) long ∙ omega arith in
      omega (arith, bound, same, rsa.large)

  cipher_small : (m : ℕ) → m % rsa.modulus < 256 ^ rsa.size
  cipher_small m =
      let below : m % rsa.modulus < rsa.modulus = mod-lt m (omega (arith, rsa.large)) in
      omega (arith, below, rsa.fits)

  encrypted-eq :
      (key : List ℕ)
      → encrypted rsa key ≡ be_bytes rsa.size (set_bytes 0 key ^ rsa.public_exponent % rsa.modulus)
  unfolding encrypted
  encrypted-eq key = padded-big_bytes rsa.size _ (cipher_small _)

  -- The bytes of a key, filled up to the size of the modulus.
  filled :
      (key : List ℕ)
      → length key ≡ 16
      → All (λ b. b < 256) key
      → be_bytes rsa.size (set_bytes 0 key) ≡ replicate (rsa.size - 16) 0 ++ key
  filled key long bytes =
      let counted : rsa.size ≡ rsa.size - 16 + length key = omega (arith, long, rsa.wide) in
      ap (λ n. be_bytes n (set_bytes 0 key)) counted
      ∙ be_bytes-set_bytes (rsa.size - 16) 0 key bytes
      ∙ ap (λ z. z ++ key) (zeros (rsa.size - 16))

  decrypted-eq :
      (key : List ℕ)
      → length key ≡ 16
      → All (λ b. b < 256) key
      → rsa_decrypt_no_padding rsa (encrypted rsa key) ≡ some (replicate (rsa.size - 16) 0 ++ key)
  unfolding rsa_decrypt_no_padding
  decrypted-eq key long bytes =
      let value = set_bytes 0 key in
      let c = value ^ rsa.public_exponent % rsa.modulus in
      let size : length (encrypted rsa key) ≡ rsa.size =
        ap length (encrypted-eq key) ∙ length-be_bytes rsa.size c in
      let read : set_bytes 0 (encrypted rsa key) ≡ c =
        ap (set_bytes 0) (encrypted-eq key) ∙ set_bytes-be_bytes rsa.size c (cipher_small _) in
      let small = value_small key long bytes in
      let sized : (rsa.size == rsa.size) ≡ true = ground arith in
      rw (size, sized, read, rsa.undoes value small)
        (ap some (
          padded-big_bytes rsa.size value (omega (arith, small, rsa.fits)) ∙ filled key long bytes))

  decrypt_key-encrypted :
      (key : List ℕ)
      → length key ≡ 16
      → All (λ b. b < 256) key
      → decrypt_key rsa (encrypted rsa key) ≡ some (agreed_key rsa.size key)
  unfolding decrypt_key agreed_key
  decrypt_key-encrypted key long bytes =
      let j = rsa.size - 16 in
      let same = drop_zeros-replicate j key in
      let fill : List ℕ = replicate j 0 in
      let whole : length (fill ++ key) ≡ rsa.size =
        length-append fill key ∙ omega (arith, length-replicate {A = ℕ} j 0, long, rsa.wide) in
      let short : length (drop_zeros (replicate j 0 ++ key)) < 22 =
        omega (arith, ap length same, length-drop_zeros key, long) in
      rw
        (
          decrypted-eq key long bytes,
          decrypt_key,
          key_in-eq (replicate j 0 ++ key) short,
          same,
          whole,
        )
        refl

  write-eq :
      (key padding : List ℕ)
      → length (encrypted rsa key) < 2 ^ 32
      → write rsa key ++ padding
        ≡ 0 ∷ (le_bytes 4 (length (encrypted rsa key)) ++ (encrypted rsa key ++ padding))
  unfolding write blow_fish_key_fields fields_bytes field_bytes
  write-eq key padding small =
      let cipher = encrypted rsa key in
      let n = length cipher in
      let same : n % 2 ^ 32 ≡ n = omega arith in
      ap (λ w. w ++ padding) (write_fields-eq new_writer (byte 0 ∷ blow_fish_key_fields rsa key))
      ∙ ap₂ (λ v w. 0 ∷ ((le_bytes 4 v ++ w) ++ padding)) same (append-nil cipher)
      ∙ ap (◌∷◌ 0) (append_assoc (le_bytes 4 n) cipher padding)

  -- The key that a game server sends is taken as that key without its leading zeros, a key of zeros
  -- only as all the zeros of the decrypted block, so that the two ends have the same key exactly when
  -- its first byte is not zero.
  pub handle_blow_fish_key-write :
      (key padding : List ℕ)
      → length key ≡ 16
      → All (λ b. b < 256) key
      → rsa.size < 2 ^ 31
      → (rest : List ℕ) × (write rsa key ++ padding ≡ 0 ∷ rest)
        × (handle_blow_fish_key rsa rest
            ≡ some (record { dynamic_blowfish_key = some (agreed_key rsa.size key) }))
        × ((agreed_key rsa.size key ≡ key) ↔ (get_or key 0 0 ≢ 0))
  unfolding handle_blow_fish_key
  handle_blow_fish_key-write key padding long bytes sized =
      let cipher = encrypted rsa key in
      let n : length cipher ≡ rsa.size =
        ap length (encrypted-eq key) ∙ length-be_bytes rsa.size _ in
      let rest = le_bytes 4 (length cipher) ++ (cipher ++ padding) in
      (
        rest,
        write-eq key padding (omega (arith, n, sized)),
        rw
            (
              new_blow_fish_key-eq cipher padding (omega (arith, n, sized)),
              handle_blow_fish_key,
              decrypt_key-encrypted key long bytes,
            )
            refl,
        agreed_key-same rsa.size key long rsa.wide,
      )
