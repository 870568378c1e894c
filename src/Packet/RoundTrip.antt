-- ===== src/Packet/RoundTrip.antt =====
-- What the writer's methods put in a packet, the reader's methods read back.
use l2go.Prelude.{
  ℕ, suc, ◌-◌, ◌<◌, ◌≡◌, refl, sym, ap, ◌∙◌, false, Option, some, List, [], ◌∷◌, ◌++◌, map, All,
  arith, length, length-append,
}
use mathlib.Core.List.{append_assoc, append-nil}
use l2go.Packet.Utf16.{encode, IsRune, decode-encode, encode-IsUnit16}
use l2go.Packet.{
  le_bytes, Reader, Writer, new_reader, new_writer, has_remaining, remaining, read_b, read_h,
  read_d, read_q, read_f, read_s, write_b, write_c, write_h, write_d, write_q, write_f, write_s,
}
use l2go.Packet.Cursor.{At, moved, At-length, At-moved, read_bytes-eq, read_c-eq, read_value-eq}
use l2go.Packet.Units.{units_bytes, write_units-eq, moved-moved, read_units-eq, length-units_bytes}
use l2go.Packet.Fields.{
  Field, byte, half, dword, qword, double, blob, text, kind_of, IsField, write_field, on_field,
  read_field, write_fields, read_fields,
}

unfoldable pub field_bytes : Field → List ℕ
field_bytes (byte v) = v ∷ []
field_bytes (half v) = le_bytes 2 v
field_bytes (dword v) = le_bytes 4 v
field_bytes (qword v) = le_bytes 8 v
field_bytes (double v) = le_bytes 8 v
field_bytes (blob bs) = bs
field_bytes (text runes) = units_bytes (encode runes) ++ le_bytes 2 0

write_field-eq : (w : Writer) (x : Field) → write_field w x ≡ w ++ field_bytes x
unfolding write_field field_bytes write_c write_h write_d write_q write_f write_b write_s
write_field-eq w (byte v) = refl
write_field-eq w (half v) = refl
write_field-eq w (dword v) = refl
write_field-eq w (qword v) = refl
write_field-eq w (double v) = refl
write_field-eq w (blob bs) = refl
write_field-eq w (text runes) = rw write_units-eq (append_assoc w _ _)

read_s-eq :
    (runes rest : List ℕ) (r : Reader)
    → All IsRune runes
    → At r (field_bytes (text runes) ++ rest)
    → read_s r ≡ (moved r (length (field_bytes (text runes))), some runes)
unfolding read_s field_bytes remaining
read_s-eq runes rest r i a =
    let us = encode runes in
    let a' : At r (units_bytes us ++ (le_bytes 2 0 ++ rest)) = record {
      inside = a.inside;
      rest = a.rest ∙ append_assoc (units_bytes us) (le_bytes 2 0) rest;
    } in
    let enough : length us < suc (length r.buf - r.off) = omega (
      arith,
      At-length r _ a',
      length-append (units_bytes us) (le_bytes 2 0 ++ rest),
      length-units_bytes us,
    ) in
    rw
      (
        read_units-eq us (suc (length r.buf - r.off)) [] rest r enough (encode-IsUnit16 runes i) a',
        decode-encode runes i,
      )
      refl

read_field-eq :
    (x : Field) (rest : List ℕ) (r : Reader)
    → IsField x
    → At r (field_bytes x ++ rest)
    → read_field (kind_of x) r ≡ (moved r (length (field_bytes x)), some x)
unfolding read_field field_bytes read_h read_d read_q read_f read_b
read_field-eq (byte v) rest r i a = rw (read_c-eq r v rest a) refl
read_field-eq (half v) rest r i a = ap (on_field half) (read_value-eq 2 v rest r i a)
read_field-eq (dword v) rest r i a = ap (on_field dword) (read_value-eq 4 v rest r i a)
read_field-eq (qword v) rest r i a = ap (on_field qword) (read_value-eq 8 v rest r i a)
read_field-eq (double v) rest r i a = ap (on_field double) (read_value-eq 8 v rest r i a)
read_field-eq (blob bs) rest r i a = rw (read_bytes-eq r bs rest (length bs) refl a) refl
read_field-eq (text runes) rest r i a = ap (on_field text) (read_s-eq runes rest r i a)

unfoldable pub fields_bytes : List Field → List ℕ
fields_bytes [] = []
fields_bytes (x ∷ xs) = field_bytes x ++ fields_bytes xs

pub write_fields-eq : (w : Writer) (xs : List Field) → write_fields w xs ≡ w ++ fields_bytes xs
unfolding write_fields fields_bytes
write_fields-eq w [] = sym (append-nil w)
write_fields-eq w (x ∷ xs) =
    write_fields-eq (write_field w x) xs
    ∙ ap (λ v. v ++ fields_bytes xs) (write_field-eq w x)
    ∙ append_assoc w (field_bytes x) (fields_bytes xs)

read_fields-eq :
    (xs : List Field) (r : Reader)
    → All IsField xs
    → At r (fields_bytes xs)
    → read_fields (map kind_of xs) r ≡ (moved r (length (fields_bytes xs)), some xs)
unfolding read_fields fields_bytes
read_fields-eq [] r i a =
    ap {B = Reader × Option (List Field)} (λ o. (record { buf = r.buf; off = o }, some []))
      (omega arith)
read_fields-eq (x ∷ xs) r i a =
    rw
      (
        read_field-eq x (fields_bytes xs) r i.0 a,
        read_fields-eq xs (moved r (length (field_bytes x))) i.1
            (At-moved r (field_bytes x) (fields_bytes xs) _ refl a),
        moved-moved r (length (field_bytes x)) (length (fields_bytes xs)) _
            (sym (length-append (field_bytes x) (fields_bytes xs))),
      )
      refl

-- Whatever fields are written into a packet, reading the same kinds of fields from it gives them
-- back and leaves nothing over. A value is to fit its field, and the code points of a text are to
-- be scalar values other than the terminator 0.
pub read_fields-write_fields :
    (xs : List Field)
    → All IsField xs
    → let packet = write_fields new_writer xs in
      let (r, got) = read_fields (map kind_of xs) (new_reader packet) in
      (got ≡ some xs) × (has_remaining r ≡ false)
unfolding new_reader has_remaining
read_fields-write_fields xs i =
    let start : At (new_reader (fields_bytes xs)) (fields_bytes xs) = record {
      inside = omega arith;
      rest = refl;
    } in
    rw (write_fields-eq [] xs, read_fields-eq xs (new_reader (fields_bytes xs)) i start)
      (refl, ground arith)
