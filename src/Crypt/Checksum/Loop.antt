-- ===== src/Crypt/Checksum/Loop.antt =====
-- The checksum loop is the exclusive or of the words before the last, and never reads out of range.
use l2go.Prelude.{
  ℕ, zero, suc, ◌+◌, ◌-◌, ◌*◌, ◌/◌, ◌%◌, ◌^◌, ◌≤◌, ◌<◌, bit_xor, bit_xor-lt, ◌≡◌, refl, some, List,
  arith, ◌==◌, length,
}
use l2go.Crypt.Words.{IsBytes, word_at, word_at-lt, read_word-eq, write_word-IsWritten, put_word}
use l2go.Crypt.Checksum.{sum_words, verify_checksum, verify_checksum_client, append_checksum}

-- The exclusive or of `n` words from index `i` on.
unfoldable pub xor_words : ℕ → List ℕ → ℕ → ℕ → ℕ
xor_words zero raw i acc = acc
xor_words (suc n) raw i acc = xor_words n raw (i + 4) (bit_xor acc (word_at raw i))

pub sum_words-eq :
    (n fuel : ℕ) (raw : List ℕ) (i count acc : ℕ)
    → n < fuel
    → i + 4 * n ≡ count
    → count ≤ length raw
    → sum_words fuel raw i count acc ≡ some (count, xor_words n raw i acc)
unfolding sum_words xor_words
sum_words-eq n zero raw i count acc f e h = absurd (omega arith)
sum_words-eq zero (suc fuel) raw i count acc f e h = ground arith
sum_words-eq (suc n) (suc fuel) raw i count acc f e h = ground (
  arith,
  read_word-eq raw i,
  sum_words-eq n fuel raw (i + 4) count (bit_xor acc (word_at raw i)) (omega arith) (omega arith) h,
)

pub xor_words-lt :
    (n : ℕ) (raw : List ℕ) (i acc : ℕ) → IsBytes raw → acc < 2 ^ 32 → xor_words n raw i acc < 2 ^ 32
unfolding xor_words
xor_words-lt zero raw i acc b h = h
xor_words-lt (suc n) raw i acc b h =
    xor_words-lt n raw (i + 4) (bit_xor acc (word_at raw i)) b
      (bit_xor-lt 32 acc (word_at raw i) h (word_at-lt raw i b))

-- The words before an index decide the sum before it.
pub xor_words_ext :
    (n : ℕ) (raw out : List ℕ) (i acc : ℕ)
    → ((j : ℕ) → i ≤ j → j + 4 ≤ i + 4 * n → word_at out j ≡ word_at raw j)
    → xor_words n out i acc ≡ xor_words n raw i acc
unfolding xor_words
xor_words_ext zero raw out i acc h = refl
xor_words_ext (suc n) raw out i acc h =
    rw (h i (omega arith) (omega arith))
      (xor_words_ext n raw out (i + 4) _ (λ j p q. h j (omega arith) (omega arith)))

-- A slice that the checksum functions take: some words and then the checksum.
pub record IsPacket (raw : List ℕ) : Type 0 where
  pub whole : length raw % 4 ≡ 0
  pub long : 4 < length raw
  pub bytes : IsBytes raw

abbrev pub data_sum : List ℕ → ℕ
data_sum raw = xor_words (length raw / 4 - 1) raw 0 0

pub verify_checksum-eq :
    (raw : List ℕ)
    → length raw % 4 ≡ 0
    → 4 < length raw
    → verify_checksum raw ≡ some (word_at raw (length raw - 4) == data_sum raw)
unfolding verify_checksum
verify_checksum-eq raw w l = ground (
  arith,
  sum_words-eq (length raw / 4 - 1) (suc (length raw)) raw 0 (length raw - 4) 0 (omega arith)
      (omega arith) (omega arith),
  read_word-eq raw (length raw - 4) (omega arith),
)

pub verify_checksum_client-eq :
    (raw : List ℕ)
    → length raw % 4 ≡ 0
    → 16 ≤ length raw
    → verify_checksum_client raw
      ≡ some (word_at raw (length raw - 16) == xor_words (length raw / 4 - 4) raw 0 0)
unfolding verify_checksum_client
verify_checksum_client-eq raw w l = ground (
  arith,
  sum_words-eq (length raw / 4 - 4) (suc (length raw)) raw 0 (length raw - 16) 0 (omega arith)
      (omega arith) (omega arith),
  read_word-eq raw (length raw - 16) (omega arith),
)

pub append_checksum-eq :
    (raw : List ℕ)
    → length raw % 4 ≡ 0
    → 4 ≤ length raw
    → append_checksum raw ≡ some (put_word raw (length raw - 4) (data_sum raw))
unfolding append_checksum
append_checksum-eq raw w l = ground (
  arith,
  sum_words-eq (length raw / 4 - 1) (suc (length raw)) raw 0 (length raw - 4) 0 (omega arith)
      (omega arith) (omega arith),
  (write_word-IsWritten raw (length raw - 4) (data_sum raw) (omega arith)).done,
)
