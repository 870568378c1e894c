-- ===== src/Link/Agree/Reads.antt =====
-- Each read of the login server takes the next field of a packet off what is left.
use l2go.Prelude.{ℕ, ◌+◌, ◌^◌, ◌<◌, ◌≡◌, refl, ap, ◌∙◌, List, ◌∷◌, ◌++◌, All, length, length-append}
use mathlib.Core.List.{append_assoc}
use l2go.Packet.Utf16.{IsRune}
use l2go.Packet.Fields.{Field, byte, half, dword, qword, blob, text}
use l2go.Packet.RoundTrip.{field_bytes, fields_bytes}
use l2go.Link.Buffer.{read_bytes, read_uint8, read_uint16, read_uint32, read_uint64, read_string}
use l2go.Link.Buffer.Laws.{read_bytes-eq, read_uint-eq, read_uint8-eq, text_bytes, read_string-eq}

-- What is left of a packet, with whatever follows it.
unfoldable pub left : List Field → List ℕ → List ℕ
left xs rest = fields_bytes xs ++ rest

module _ (xs : List Field) (rest : List ℕ) where
  left_next : (x : Field) → left (x ∷ xs) rest ≡ field_bytes x ++ left xs rest
  unfolding left fields_bytes
  left_next x = append_assoc (field_bytes x) (fields_bytes xs) rest

  pub length-left :
      (x : Field) → length (left (x ∷ xs) rest) ≡ length (field_bytes x) + length (left xs rest)
  length-left x = ap length (left_next x) ∙ length-append (field_bytes x) (left xs rest)

  pub read_uint8-left : (v : ℕ) → read_uint8 (left (byte v ∷ xs) rest) ≡ (v, left xs rest)
  unfolding read_uint8 field_bytes
  read_uint8-left v = rw (left_next (byte v)) (read_uint8-eq v (left xs rest))

  pub read_uint16-left :
      (v : ℕ) → v < 2 ^ 16 → read_uint16 (left (half v ∷ xs) rest) ≡ (v, left xs rest)
  unfolding read_uint16 field_bytes
  read_uint16-left v h = rw (left_next (half v)) (read_uint-eq 2 v (left xs rest) h)

  pub read_uint32-left :
      (v : ℕ) → v < 2 ^ 32 → read_uint32 (left (dword v ∷ xs) rest) ≡ (v, left xs rest)
  unfolding read_uint32 field_bytes
  read_uint32-left v h = rw (left_next (dword v)) (read_uint-eq 4 v (left xs rest) h)

  pub read_uint64-left :
      (v : ℕ) → v < 2 ^ 64 → read_uint64 (left (qword v ∷ xs) rest) ≡ (v, left xs rest)
  unfolding read_uint64 field_bytes
  read_uint64-left v h = rw (left_next (qword v)) (read_uint-eq 8 v (left xs rest) h)

  pub read_bytes-left :
      (bs : List ℕ) → read_bytes (length bs) (left (blob bs ∷ xs) rest) ≡ (bs, left xs rest)
  unfolding field_bytes
  read_bytes-left bs = rw (left_next (blob bs)) (read_bytes-eq bs (left xs rest) (length bs) refl)

  pub read_string-left :
      (s : List ℕ) → All IsRune s → read_string (left (text s ∷ xs) rest) ≡ (s, left xs rest)
  unfolding field_bytes text_bytes
  read_string-left s h = rw (left_next (text s)) (read_string-eq s (left xs rest) h)
