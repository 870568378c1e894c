-- ===== src/Link/Buffer/Laws.antt =====
-- The login server's reads of bytes that are known, and its writes.
use l2go.Prelude.{
  ℕ, zero, suc, ◌^◌, ◌<◌, ◌≡◌, refl, sym, ap, ◌∙◌, List, [], ◌∷◌, ◌++◌, All, arith, length,
  length-append, take-append, drop-append,
}
use mathlib.Core.List.{append_assoc, append-nil}
use l2go.Packet.{le_bytes, le_value}
use l2go.Packet.Utf16.{encode, IsRune, IsUnit16, decode-encode, encode-IsUnit16}
use l2go.Packet.Cursor.{length-le_bytes, le_value-le_bytes}
use l2go.Packet.Units.{units_bytes, length-units_bytes}
use l2go.Link.Buffer.{
  write_uint16, write_code_units, write_string, read_bytes, read_uint, read_uint16, read_code_units,
  read_string,
}

pub read_bytes-eq :
    (bs rest : List ℕ) (n : ℕ) → length bs ≡ n → read_bytes n (bs ++ rest) ≡ (bs, rest)
unfolding read_bytes
read_bytes-eq bs rest n l =
    ground (arith, length-append bs rest, take-append n bs rest l, drop-append n bs rest l)

pub read_uint-eq :
    (n v : ℕ) (rest : List ℕ) → v < 256 ^ n → read_uint n (le_bytes n v ++ rest) ≡ (v, rest)
unfolding read_uint
read_uint-eq n v rest h = ground (
  arith,
  length-le_bytes n v,
  length-append (le_bytes n v) rest,
  take-append n (le_bytes n v) rest (length-le_bytes n v),
  drop-append n (le_bytes n v) rest (length-le_bytes n v),
  le_value-le_bytes n v h,
)

pub read_uint8-eq : (v : ℕ) (rest : List ℕ) → read_uint 1 (v ∷ rest) ≡ (v, rest)
unfolding read_uint le_value
read_uint8-eq v rest = ground arith

read_code_units-eq :
    (us : List ℕ) (fuel : ℕ) (codes rest : List ℕ)
    → length us < fuel
    → All IsUnit16 us
    → read_code_units fuel codes (units_bytes us ++ (le_bytes 2 0 ++ rest)) ≡ (codes ++ us, rest)
unfolding read_code_units units_bytes read_uint16
read_code_units-eq us zero codes rest l h = absurd (omega arith)
read_code_units-eq [] (suc fuel) codes rest l h =
    rw (read_uint-eq 2 0 rest (omega arith), append-nil) refl
read_code_units-eq (u ∷ us) (suc fuel) codes rest l h =
    let tail = units_bytes us ++ (le_bytes 2 0 ++ rest) in
    rw
      (
        append_assoc (le_bytes 2 u) (units_bytes us) (le_bytes 2 0 ++ rest),
        read_uint-eq 2 u tail h.0.1,
      )
      (ground (
        arith,
        h.0.0,
        read_code_units-eq us fuel (codes ++ u ∷ []) rest (omega arith) h.1,
        append_assoc codes (u ∷ []) us,
      ))

-- The bytes of a text.
unfoldable pub text_bytes : List ℕ → List ℕ
text_bytes s = units_bytes (encode s) ++ le_bytes 2 0

pub read_string-eq :
    (s rest : List ℕ) → All IsRune s → read_string (text_bytes s ++ rest) ≡ (s, rest)
unfolding read_string text_bytes
read_string-eq s rest h =
    let us = encode s in
    let enough : length us < suc (length (units_bytes us ++ (le_bytes 2 0 ++ rest))) =
      omega (arith, length-append (units_bytes us) (le_bytes 2 0 ++ rest), length-units_bytes us) in
    rw
      (
        append_assoc (units_bytes us) (le_bytes 2 0) rest,
        read_code_units-eq us _ [] rest enough (encode-IsUnit16 s h),
        decode-encode s h,
      )
      refl

write_code_units-eq : (b us : List ℕ) → write_code_units b us ≡ b ++ units_bytes us
unfolding write_code_units write_uint16 units_bytes
write_code_units-eq b [] = sym (append-nil b)
write_code_units-eq b (u ∷ us) =
    write_code_units-eq (b ++ le_bytes 2 u) us ∙ append_assoc b (le_bytes 2 u) (units_bytes us)

pub write_string-eq : (b s : List ℕ) → write_string b s ≡ b ++ text_bytes s
unfolding write_string write_uint16 text_bytes
write_string-eq b s =
    ap (λ w. w ++ le_bytes 2 0) (write_code_units-eq b (encode s))
    ∙ append_assoc b (units_bytes (encode s)) (le_bytes 2 0)
