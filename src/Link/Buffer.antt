-- ===== src/Link/Buffer.antt =====
-- Buffer and Reader of internal/loginserver/packets/packets.go. A Buffer is what it holds, a Reader
-- what is left to read; a read that runs out gives 0 or nothing, and leaves nothing.
pub mod Laws
use l2go.Prelude.{
  ℕ, zero, suc, ◌+◌, ◌%◌, ◌^◌, Bool, List, [], ◌∷◌, ◌++◌, ltb, ◌==◌, if◌then◌else◌, length, take,
  drop,
}
use l2go.Packet.{le_bytes, le_value}
use l2go.Packet.Utf16.{encode, decode}

pub write_uint8 : List ℕ → ℕ → List ℕ
write_uint8 b value = b ++ value ∷ []

pub write_uint16 : List ℕ → ℕ → List ℕ
write_uint16 b value = b ++ le_bytes 2 value

pub write_uint32 : List ℕ → ℕ → List ℕ
write_uint32 b value = b ++ le_bytes 4 value

pub write_uint64 : List ℕ → ℕ → List ℕ
write_uint64 b value = b ++ le_bytes 8 value

pub write_bytes : List ℕ → List ℕ → List ℕ
write_bytes b bs = b ++ bs

-- The loop of WriteString over the UTF-16 units.
pub write_code_units : List ℕ → List ℕ → List ℕ
write_code_units b [] = b
write_code_units b (u ∷ us) = write_code_units (write_uint16 b u) us

pub write_string : List ℕ → List ℕ → List ℕ
write_string b str = write_uint16 (write_code_units b (encode str)) 0

pub read_bytes : ℕ → List ℕ → List ℕ × List ℕ
read_bytes number r = if ltb (length r) number then ([], []) else (take number r, drop number r)

-- The typed reads: the little-endian value of so many bytes.
pub read_uint : ℕ → List ℕ → ℕ × List ℕ
read_uint size r = if ltb (length r) size then (0, []) else (le_value (take size r), drop size r)

unfoldable pub read_uint8 : List ℕ → ℕ × List ℕ
read_uint8 r = read_uint 1 r

unfoldable pub read_uint16 : List ℕ → ℕ × List ℕ
read_uint16 r = read_uint 2 r

unfoldable pub read_uint32 : List ℕ → ℕ × List ℕ
read_uint32 r = read_uint 4 r

unfoldable pub read_uint64 : List ℕ → ℕ × List ℕ
read_uint64 r = read_uint 8 r

-- The loop of ReadString. What is left to read is fuel enough: at the end a unit is 0.
pub read_code_units : ℕ → List ℕ → List ℕ → List ℕ × List ℕ
read_code_units zero codes r = (codes, r)
read_code_units (suc fuel) codes r =
    let (unit, rest) = read_uint16 r in
    let more = read_code_units fuel (codes ++ unit ∷ []) rest in
    if unit == 0 then (codes, rest) else more

pub read_string : List ℕ → List ℕ × List ℕ
read_string r = let (codes, rest) = read_code_units (suc (length r)) [] r in (decode codes, rest)
