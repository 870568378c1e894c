-- ===== src/Packet/Tests.antt =====
-- A packet with every kind of field.
use l2go.Prelude.{◌^◌, ◌-◌, ◌≡◌, refl, inl, inr, false, none, some, List, [], ◌∷◌, map, All, arith}
use l2go.Packet.Utf16.{IsRune, encode}
use l2go.Packet.{
  le_bytes, read_d, read_bytes, new_reader, new_writer, has_remaining, write_s, write_units,
  write_h,
}
use l2go.Packet.Fields.{
  Field, byte, half, dword, qword, blob, text, kind_of, write_fields, read_fields,
}
use l2go.Packet.RoundTrip.{read_fields-write_fields}

abbrev fields : List Field
fields =
    byte 0x12
    ∷ half 0x3456
    ∷ dword (2 ^ 32 - 1)
    ∷ qword 5
    ∷ text (0x48 ∷ 0x4e16 ∷ 0x1f600 ∷ [])
    ∷ blob (0xde ∷ 0xad ∷ [])
    ∷ []

hello : write_s [] (0x48 ∷ 0x1f600 ∷ []) ≡ 0x48 ∷ 0 ∷ 0x3d ∷ 0xd8 ∷ 0 ∷ 0xde ∷ 0 ∷ 0 ∷ []
unfolding write_s write_units write_h encode le_bytes
hello = refl

-- Three bytes are no int32.
underflow : (read_d (new_reader (1 ∷ 2 ∷ 3 ∷ []))).1 ≡ none
unfolding read_d read_bytes new_reader
underflow = refl

runes : All IsRune (0x48 ∷ 0x4e16 ∷ 0x1f600 ∷ [])
runes = (
  record { nonzero = omega arith; scalar = inl (omega arith); last = omega arith },
  (
    record { nonzero = omega arith; scalar = inl (omega arith); last = omega arith },
    (record { nonzero = omega arith; scalar = inr (omega arith); last = omega arith }, tt),
  ),
)

read_fields-write_fields_example :
    let packet = write_fields new_writer fields in
    let (r, got) = read_fields (map kind_of fields) (new_reader packet) in
    (got ≡ some fields) × (has_remaining r ≡ false)
read_fields-write_fields_example =
    read_fields-write_fields fields
      (omega arith, (omega arith, (omega arith, (omega arith, (runes, (tt, tt))))))
