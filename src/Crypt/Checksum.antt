-- ===== src/Crypt/Checksum.antt =====
-- VerifyChecksum, VerifyChecksumClient, AppendChecksum and Checksum of pkg/crypt/crypt.go.
-- `none` is the panic of an index out of range.
pub mod Loop
pub mod Changed
pub mod Laws
mod Tests
use l2go.Prelude.{
  ℕ, zero, suc, ◌+◌, ◌-◌, ◌%◌, bit_xor, Bool, true, false, not, ◌||◌, Option, none, some, List, ltb,
  leb, ◌==◌, if◌then◌else◌, length,
}
use l2go.Crypt.Words.{read_word, write_word, ◌>>=◌}

-- `for i = offset; i < count; i += 4`, with the index at which it stops. The callers give more
-- fuel than there are rounds.
pub sum_words : ℕ → List ℕ → ℕ → ℕ → ℕ → Option (ℕ × ℕ)
sum_words zero raw i count chksum = none
sum_words (suc fuel) raw i count chksum =
    let round = (do
      check ← read_word raw i
      sum_words fuel raw (i + 4) count (bit_xor chksum check)) in
    if ltb i count then round else some (i, chksum)

pub verify_checksum : List ℕ → Option Bool
verify_checksum raw =
    let size = length raw in
    if not (size % 4 == 0) || leb size 4 then some false else do
      (i, chksum) ← sum_words (suc size) raw 0 (size - 4) 0
      check ← read_word raw i
      some (check == chksum)

pub verify_checksum_client : List ℕ → Option Bool
verify_checksum_client raw =
    let size = length raw in
    if not (size % 4 == 0) || ltb size 16 then some false else do
      (i, chksum) ← sum_words (suc size) raw 0 (size - 16) 0
      check ← read_word raw (size - 16)
      some (check == chksum)

-- The slice after the call.
pub append_checksum : List ℕ → Option (List ℕ)
append_checksum raw =
    let size = length raw in
    if ltb size 4 || not (size % 4 == 0)
    then some raw
    else do (i, chksum) ← sum_words (suc size) raw 0 (size - 4) 0; write_word raw (size - 4) chksum

-- The deprecated name.
pub checksum : List ℕ → Option Bool
checksum raw = verify_checksum raw
