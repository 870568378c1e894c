-- ===== src/Packet/Units.antt =====
-- The units of a text, as `write_units` writes and the loop of `read_s` reads them.
use l2go.Prelude.{
  ℕ, zero, suc, ◌+◌, ◌*◌, ◌^◌, ◌<◌, ◌≡◌, refl, sym, ap, ◌∙◌, false, some, List, [], ◌∷◌, ◌++◌, All,
  arith, ltb, ◌==◌, if◌then◌else◌, length, take, drop, length-append, take-append,
}
use mathlib.Core.List.{append_assoc, append-nil}
use l2go.Packet.Utf16.{IsUnit16}
use l2go.Packet.{le_bytes, le_value, Reader, read_units, write_h, write_units}
use l2go.Packet.Cursor.{length-le_bytes, le_value-le_bytes, At, moved, At-length, At-moved}

unfoldable pub units_bytes : List ℕ → List ℕ
units_bytes [] = []
units_bytes (u ∷ us) = le_bytes 2 u ++ units_bytes us

pub write_units-eq : (w us : List ℕ) → write_units w us ≡ w ++ units_bytes us
unfolding write_units write_h units_bytes
write_units-eq w [] = sym (append-nil w)
write_units-eq w (u ∷ us) = write_units-eq (w ++ le_bytes 2 u) us ∙ append_assoc w (le_bytes 2 u) _

read_units-suc :
    (u fuel : ℕ) (scratch rest : List ℕ) (r : Reader)
    → u < 2 ^ 16
    → At r (le_bytes 2 u ++ rest)
    → read_units (suc fuel) scratch r ≡ (
        if u == 0
        then (moved r 2, some scratch)
        else read_units fuel (scratch ++ u ∷ []) (moved r 2))
unfolding read_units
read_units-suc u fuel scratch rest r h a =
    let unit : le_value (take 2 (drop r.off r.buf)) ≡ u =
      ap (λ xs. le_value (take 2 xs)) a.rest
      ∙ ap le_value (take-append 2 (le_bytes 2 u) rest (length-le_bytes 2 u))
      ∙ le_value-le_bytes 2 u h in
    let room : ltb (length r.buf) (r.off + 2) ≡ false = ground (
      arith,
      At-length r (le_bytes 2 u ++ rest) a,
      length-append (le_bytes 2 u) rest,
      length-le_bytes 2 u,
    ) in
    rw (unit, room) refl

pub moved-moved : (r : Reader) (m n k : ℕ) → m + n ≡ k → moved (moved r m) n ≡ moved r k
moved-moved r m n k e = ap {B = Reader} (λ o. record { buf = r.buf; off = o }) (omega arith)

-- The loop of `read_s` stops at the terminator, with all units before it.
pub read_units-eq :
    (us : List ℕ) (fuel : ℕ) (scratch rest : List ℕ) (r : Reader)
    → length us < fuel
    → All IsUnit16 us
    → At r (units_bytes us ++ (le_bytes 2 0 ++ rest))
    → read_units fuel scratch r
      ≡ (moved r (length (units_bytes us ++ le_bytes 2 0)), some (scratch ++ us))
unfolding units_bytes
read_units-eq us zero scratch rest r l u a = absurd (omega arith)
read_units-eq [] (suc fuel) scratch rest r l u a =
    rw (read_units-suc 0 fuel scratch rest r (omega arith) a, length-le_bytes, append-nil) refl
read_units-eq (x ∷ us) (suc fuel) scratch rest r l u a =
    let a' : At r (le_bytes 2 x ++ (units_bytes us ++ (le_bytes 2 0 ++ rest))) = record {
      inside = a.inside;
      rest = a.rest ∙ append_assoc (le_bytes 2 x) _ _;
    } in
    let size = length (units_bytes us ++ le_bytes 2 0) in
    let longer : 2 + size ≡ length ((le_bytes 2 x ++ units_bytes us) ++ le_bytes 2 0) = omega (
      arith,
      length-append (le_bytes 2 x) (units_bytes us),
      length-append (le_bytes 2 x ++ units_bytes us) (le_bytes 2 0),
      length-append (units_bytes us) (le_bytes 2 0),
      length-le_bytes 2 x,
    ) in
    rw (read_units-suc x fuel scratch _ r u.0.1 a') (
      ground (
        arith,
        u.0.0,
        read_units-eq us fuel (scratch ++ x ∷ []) rest (moved r 2) (omega arith) u.1
            (At-moved r (le_bytes 2 x) _ 2 (length-le_bytes 2 x) a'),
        moved-moved r 2 size _ longer,
        append_assoc scratch (x ∷ []) us,
      ))

pub length-units_bytes : (us : List ℕ) → length (units_bytes us) ≡ 2 * length us
unfolding units_bytes
length-units_bytes [] = omega arith
length-units_bytes (u ∷ us) = omega (
  arith,
  length-append (le_bytes 2 u) (units_bytes us),
  length-le_bytes 2 u,
  length-units_bytes us,
)
