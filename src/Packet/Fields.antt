-- ===== src/Packet/Fields.antt =====
-- A packet as a list of typed fields: one call of the writer or of the reader for each.
use l2go.Prelude.{ℕ, ◌^◌, ◌<◌, Option, none, some, List, [], ◌∷◌, All, length}
use l2go.Packet.Utf16.{IsRune}
use l2go.Packet.{
  Reader, Writer, read_b, read_c, read_h, read_d, read_q, read_f, read_s, write_b, write_c, write_h,
  write_d, write_q, write_f, write_s,
}

-- The fields that a packet is made of.
pub data Field : Type 0 where
  byte half dword qword double : ℕ → Field
  blob text : List ℕ → Field

-- What a reader has to know to read one.
pub data Kind : Type 0 where
  kind_byte kind_half kind_dword kind_qword kind_double kind_text : Kind
  kind_blob : ℕ → Kind

abbrev pub kind_of : Field → Kind
kind_of (byte v) = kind_byte
kind_of (half v) = kind_half
kind_of (dword v) = kind_dword
kind_of (qword v) = kind_qword
kind_of (double v) = kind_double
kind_of (blob bs) = kind_blob (length bs)
kind_of (text runes) = kind_text

-- The values that fit their field.
abbrev pub IsField : Field → Type 0
IsField (byte v) = v < 2 ^ 8
IsField (half v) = v < 2 ^ 16
IsField (dword v) = v < 2 ^ 32
IsField (qword v) = v < 2 ^ 64
IsField (double v) = v < 2 ^ 64
IsField (blob bs) = Unit {0}
IsField (text runes) = All IsRune runes

unfoldable pub write_field : Writer → Field → Writer
write_field w (byte v) = write_c w v
write_field w (half v) = write_h w v
write_field w (dword v) = write_d w v
write_field w (qword v) = write_q w v
write_field w (double v) = write_f w v
write_field w (blob bs) = write_b w bs
write_field w (text runes) = write_s w runes

abbrev pub on_field {ℓ κ} :
    {A : Type ℓ} {B : Type κ} → (A → B) → Reader × Option A → Reader × Option B
on_field g (r, none) = (r, none)
on_field g (r, some a) = (r, some (g a))

abbrev and_read {ℓ κ} :
    {A : Type ℓ} {B : Type κ}
    → Reader × Option A
    → (A → Reader → Reader × Option B)
    → Reader × Option B
and_read (r, none) g = (r, none)
and_read (r, some a) g = g a r

unfoldable pub read_field : Kind → Reader → Reader × Option Field
read_field kind_byte r = on_field byte (read_c r)
read_field kind_half r = on_field half (read_h r)
read_field kind_dword r = on_field dword (read_d r)
read_field kind_qword r = on_field qword (read_q r)
read_field kind_double r = on_field double (read_f r)
read_field kind_text r = on_field text (read_s r)
read_field (kind_blob n) r = on_field blob (read_b n r)

unfoldable pub write_fields : Writer → List Field → Writer
write_fields w [] = w
write_fields w (x ∷ xs) = write_fields (write_field w x) xs

unfoldable pub read_fields : List Kind → Reader → Reader × Option (List Field)
read_fields [] r = (r, some [])
read_fields (k ∷ ks) r = and_read (read_field k r) (λ x r'. on_field (◌∷◌ x) (read_fields ks r'))
