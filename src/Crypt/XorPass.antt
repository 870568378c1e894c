-- ===== src/Crypt/XorPass.antt =====
-- EncXORPass and DecXORPass of pkg/crypt/crypt.go, in place on a byte slice. `none` is the panic
-- of an index out of range. Offset and size are not negative; `stop` may be in the source, and
-- then both loops are empty, as they are when `-` stops at 0.
pub mod Rounds
pub mod Laws
mod Tests
use l2go.Prelude.{
  ℕ, zero, suc, ◌+◌, ◌-◌, ◌*◌, ◌%◌, ◌^◌, bit_xor, Option, none, some, List, [], ◌∷◌, ltb, leb,
  if◌then◌else◌, length,
}
use mathlib.Core.List.{reverse}
use l2go.Crypt.Words.{read_word, write_word, ◌>>=◌}

abbrev pub add32 : ℕ → ℕ → ℕ
add32 a b = (a + b) % 2 ^ 32

abbrev pub sub32 : ℕ → ℕ → ℕ
sub32 a b = (a + 2 ^ 32 - b) % 2 ^ 32

-- The loop, with the slice, the position and the key at its end.
pub enc_loop : ℕ → List ℕ → ℕ → ℕ → ℕ → Option (List ℕ × ℕ × ℕ)
enc_loop zero raw pos stop ecx = none
enc_loop (suc fuel) raw pos stop ecx =
    let round = (do
      edx ← read_word raw pos
      raw' ← write_word raw pos (bit_xor edx (add32 ecx edx))
      enc_loop fuel raw' (pos + 4) stop (add32 ecx edx)) in
    if ltb pos stop then round else some (raw, pos, ecx)

pub enc_xor_pass : List ℕ → ℕ → ℕ → ℕ → Option (List ℕ)
enc_xor_pass raw offset size key = do
  (raw', pos, ecx) ← enc_loop (suc size) raw (4 + offset) (offset + size - 8) key
  write_word raw' pos ecx

-- `encryptedBlocks`.
pub collect : ℕ → List ℕ → ℕ → ℕ → Option (List ℕ)
collect zero raw i stop = none
collect (suc fuel) raw i stop =
    let round = (do
      block ← read_word raw i
      blocks ← collect fuel raw (i + 4) stop
      some (block ∷ blocks)) in
    if ltb i stop then round else some []

-- The loop from the last block to the first: the list is reversed, and the index of its head is
-- the number of blocks behind it. The position is that of block 0.
pub dec_loop : List ℕ → ℕ → ℕ → List ℕ → Option (List ℕ × ℕ)
dec_loop [] pos key raw = some (raw, key)
dec_loop (block ∷ rest) pos key raw = do
  raw' ← write_word raw (pos + length rest * 4) (bit_xor block key)
  dec_loop rest pos (sub32 key (bit_xor block key)) raw'

pub dec_xor_pass : List ℕ → ℕ → ℕ → Option (List ℕ)
dec_xor_pass raw offset size = if leb size 8 then some raw else do
  final ← read_word raw (offset + size - 8)
  blocks ← collect (suc size) raw (4 + offset) (offset + size - 8)
  (raw', key) ← dec_loop (reverse blocks) (4 + offset) final raw
  write_word raw' (offset + size - 8) 0
