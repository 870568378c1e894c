-- ===== src/Packet/Cursor.antt =====
-- The reader as what is left to read, and the single reads at bytes that are known.
use l2go.Prelude.{
  ℕ, zero, suc, ◌+◌, ◌/◌, ◌^◌, ◌≤◌, ◌<◌, ◌≡◌, refl, sym, ap, ◌∙◌, false, some, List, ◌∷◌, ◌++◌,
  arith, ltb, length, take, drop, get_or, length-append, length-drop, take-append, drop-append,
  drop-drop, get_or-drop,
}
use native.Mathlib.Nat.{pow-suc}
use l2go.Packet.{le_bytes, le_value, Reader, read_bytes, read_c, on_value}

pub length-le_bytes : (n v : ℕ) → length (le_bytes n v) ≡ n
unfolding le_bytes
length-le_bytes zero v = refl
length-le_bytes (suc n) v = ap suc (length-le_bytes n (v / 2 ^ 8))

pub le_value-le_bytes : (n v : ℕ) → v < 256 ^ n → le_value (le_bytes n v) ≡ v
unfolding le_bytes le_value
le_value-le_bytes zero v h = omega arith
le_value-le_bytes (suc n) v h =
    omega (arith, le_value-le_bytes n (v / 2 ^ 8) (omega (arith, pow-suc 256 n)))

-- What is still to be read.
pub record At (r : Reader) (xs : List ℕ) : Type 0 where
  pub inside : r.off ≤ length r.buf
  pub rest : drop r.off r.buf ≡ xs

abbrev pub moved : Reader → ℕ → Reader
moved r n = record r { off = r.off + n }

pub At-length : (r : Reader) (xs : List ℕ) → At r xs → r.off + length xs ≡ length r.buf
At-length r xs a = omega (arith, ap length a.rest, length-drop r.off r.buf)

pub At-moved :
    (r : Reader) (bs rest : List ℕ) (n : ℕ)
    → length bs ≡ n
    → At r (bs ++ rest)
    → At (moved r n) rest
At-moved r bs rest n l a = record {
  inside = omega (arith, At-length r (bs ++ rest) a, length-append bs rest);
  rest = sym (drop-drop n r.off r.buf) ∙ ap (drop n) a.rest ∙ drop-append n bs rest l;
}

pub read_bytes-eq :
    (r : Reader) (bs rest : List ℕ) (n : ℕ)
    → length bs ≡ n
    → At r (bs ++ rest)
    → read_bytes n r ≡ (moved r n, some bs)
unfolding read_bytes
read_bytes-eq r bs rest n l a = ground (
  arith,
  At-length r (bs ++ rest) a,
  length-append bs rest,
  ap (take n) a.rest,
  take-append n bs rest l,
)

pub read_c-eq :
    (r : Reader) (v : ℕ) (rest : List ℕ) → At r (v ∷ rest) → read_c r ≡ (moved r 1, some v)
unfolding read_c
read_c-eq r v rest a =
    let here : get_or r.buf r.off 0 ≡ v =
      ap (λ k. get_or r.buf k 0) (omega arith)
      ∙ get_or-drop r.off 0 r.buf 0
      ∙ ap (λ xs. get_or xs 0 0) a.rest in
    let room : ltb (length r.buf) (r.off + 1) ≡ false = ground (arith, At-length r (v ∷ rest) a) in
    rw (here, room) refl

pub read_value-eq :
    (n v : ℕ) (rest : List ℕ) (r : Reader)
    → v < 256 ^ n
    → At r (le_bytes n v ++ rest)
    → on_value le_value (read_bytes n r) ≡ (moved r (length (le_bytes n v)), some v)
read_value-eq n v rest r b a =
    rw
      (
        read_bytes-eq r (le_bytes n v) rest n (length-le_bytes n v) a,
        length-le_bytes n v,
        le_value-le_bytes n v b,
      )
      refl
