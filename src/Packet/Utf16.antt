-- ===== src/Packet/Utf16.antt =====
-- unicode/utf16, as WriteS and ReadS of pkg/l2pkt use it.
use l2go.Prelude.{
  ℕ, ◌+◌, ◌-◌, ◌*◌, ◌/◌, ◌%◌, ◌^◌, ◌≤◌, ◌<◌, ◌≡◌, ◌≢◌, refl, ap, ◌⊎◌, inl, inr, Bool, Bool-cases,
  ◌&&◌, ◌||◌, List, [], ◌∷◌, All, arith, ltb, leb, if◌then◌else◌,
}

unfoldable pub encode : List ℕ → List ℕ
encode [] = []
encode (r ∷ rs) =
    let rest = encode rs in
    if ltb r 0xd800 || (leb 0xe000 r && ltb r 0x10000)
    then r ∷ rest
    else if leb 0x10000 r && leb r 0x10ffff
    then (0xd800 + (r - 0x10000) / 1024 % 1024) ∷ (0xdc00 + (r - 0x10000) % 1024) ∷ rest
    else 0xfffd ∷ rest

abbrev is_high : ℕ → Bool
is_high u = leb 0xd800 u && ltb u 0xdc00

abbrev is_low : ℕ → Bool
is_low u = leb 0xdc00 u && ltb u 0xe000

unfoldable pub decode : List ℕ → List ℕ
decode [] = []
decode (u ∷ []) = (if is_high u || is_low u then 0xfffd else u) ∷ []
decode (u ∷ v ∷ units) =
    let pair = ((u - 0xd800) * 1024 + (v - 0xdc00) + 0x10000) ∷ decode units in
    let single = decode (v ∷ units) in
    if is_high u && is_low v then pair else (if is_high u || is_low u then 0xfffd else u) ∷ single

-- A code point that a string can hold and that is not the terminator.
pub record IsRune (r : ℕ) : Type 0 where
  pub nonzero : r ≢ 0
  pub scalar : (r < 0xd800) ⊎ (0xe000 ≤ r)
  pub last : r ≤ 0x10ffff

decode_plain : (u : ℕ) (us : List ℕ) → (u < 0xd800) ⊎ (0xe000 ≤ u) → decode (u ∷ us) ≡ u ∷ decode us
unfolding decode
decode_plain u [] h = ground arith
decode_plain u (v ∷ us) h = ground arith

encode_plain :
    (r : ℕ) (rs : List ℕ)
    → (r < 0xd800) ⊎ (0xe000 ≤ r)
    → r < 0x10000
    → encode (r ∷ rs) ≡ r ∷ encode rs
unfolding encode
encode_plain r rs h l = ground arith

abbrev high_half : ℕ → ℕ
high_half r = 0xd800 + (r - 0x10000) / 1024 % 1024

abbrev low_half : ℕ → ℕ
low_half r = 0xdc00 + (r - 0x10000) % 1024

encode_pair :
    (r : ℕ) (rs : List ℕ)
    → 0x10000 ≤ r
    → r ≤ 0x10ffff
    → encode (r ∷ rs) ≡ high_half r ∷ low_half r ∷ encode rs
unfolding encode
encode_pair r rs h l = ground arith

decode_pair :
    (r : ℕ) (us : List ℕ)
    → 0x10000 ≤ r
    → r ≤ 0x10ffff
    → decode (high_half r ∷ low_half r ∷ us) ≡ r ∷ decode us
unfolding decode
decode_pair r us h l = ground arith

pub decode-encode : (s : List ℕ) → All IsRune s → decode (encode s) ≡ s
decode-encode [] h = unfold decode encode in refl
decode-encode (r ∷ rs) h = elim (Bool-cases (ltb r 0x10000)) [
  | inl small ↦
      rw (encode_plain r rs h.0.scalar (ground arith), decode_plain r (encode rs) h.0.scalar)
        (ap (◌∷◌ r) (decode-encode rs h.1))
  | inr big ↦
      rw
        (
          encode_pair r rs (ground arith) h.0.last,
          decode_pair r (encode rs) (ground arith) h.0.last,
        )
        (ap (◌∷◌ r) (decode-encode rs h.1))
]

-- A unit of 16 bits that does not end the string.
abbrev pub IsUnit16 : ℕ → Type 0
IsUnit16 u = (u ≢ 0) × (u < 2 ^ 16)

pub encode-IsUnit16 : (s : List ℕ) → All IsRune s → All IsUnit16 (encode s)
encode-IsUnit16 [] h = unfold encode in tt
encode-IsUnit16 (r ∷ rs) h = elim (Bool-cases (ltb r 0x10000)) [
  | inl small ↦
      rw (encode_plain r rs h.0.scalar (ground arith))
        ((h.0.nonzero, ground arith), encode-IsUnit16 rs h.1)
  | inr big ↦
      rw (encode_pair r rs (ground arith) h.0.last)
        ((omega arith, omega arith), ((omega arith, omega arith), encode-IsUnit16 rs h.1))
]
