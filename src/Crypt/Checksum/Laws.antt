-- ===== src/Crypt/Checksum/Laws.antt =====
-- The checksum functions are total, an appended checksum verifies, and a change to one word is
-- noticed.
use l2go.Prelude.{
  ℕ, ◌+◌, ◌-◌, ◌*◌, ◌/◌, ◌%◌, ◌^◌, ◌≤◌, ◌<◌, ◌≡◌, ◌≢◌, Bool, true, false, some, List, arith, ltb,
  leb, not, ◌||◌, ◌==◌, get_or, length, inl, inr, Bool-cases,
}
use l2go.Crypt.Words.{
  word_at, write_word-IsWritten, word_at-put_self, word_at-put_ne, length-put_word, put_word,
}
use l2go.Crypt.Checksum.{verify_checksum, verify_checksum_client, append_checksum}
use l2go.Crypt.Checksum.Loop.{
  xor_words, xor_words-lt, xor_words_ext, IsPacket, data_sum, verify_checksum-eq,
  verify_checksum_client-eq, append_checksum-eq,
}
use l2go.Crypt.Checksum.Changed.{verify-altered, altered_same}

verify_checksum_total : (raw : List ℕ) → (b : Bool) × (verify_checksum raw ≡ some b)
verify_checksum_total raw = elim (Bool-cases (not (length raw % 4 == 0) || leb (length raw) 4)) [
  | inl bad ↦ (false, unfold verify_checksum in ground arith)
  | inr good ↦ (_, verify_checksum-eq raw (ground arith) (ground arith))
]

verify_checksum_client_total : (raw : List ℕ) → (b : Bool) × (verify_checksum_client raw ≡ some b)
verify_checksum_client_total raw =
    elim (Bool-cases (not (length raw % 4 == 0) || ltb (length raw) 16)) [
      | inl bad ↦ (false, unfold verify_checksum_client in ground arith)
      | inr good ↦ (_, verify_checksum_client-eq raw (ground arith) (ground arith))
    ]

append_checksum_total : (raw : List ℕ) → (out : List ℕ) × (append_checksum raw ≡ some out)
append_checksum_total raw = elim (Bool-cases (ltb (length raw) 4 || not (length raw % 4 == 0))) [
  | inl bad ↦ (raw, unfold append_checksum in ground arith)
  | inr good ↦ (_, append_checksum-eq raw (ground arith) (ground arith))
]

-- Whatever bytes come in, none of the three checksum functions reads or writes out of range.
pub checksum_total :
    (raw : List ℕ)
    → ((b : Bool) × (verify_checksum raw ≡ some b))
      × ((b : Bool) × (verify_checksum_client raw ≡ some b))
      × ((out : List ℕ) × (append_checksum raw ≡ some out))
checksum_total raw =
    (verify_checksum_total raw, verify_checksum_client_total raw, append_checksum_total raw)

-- On a packet of whole words, longer than the checksum, `append_checksum` returns a slice of the
-- same length that `verify_checksum` accepts, and it changes no byte before the last four.
pub verify-append_checksum :
    (raw : List ℕ)
    → IsPacket raw
    → (out : List ℕ) × (append_checksum raw ≡ some out)
      × (verify_checksum out ≡ some true)
      × (length out ≡ length raw)
      × ((j : ℕ) → j + 4 < length raw → get_or out j 0 ≡ get_or raw j 0)
verify-append_checksum raw p = (
  out,
  append_checksum-eq raw p.whole (omega arith),
  verified,
  length-put_word raw _ _,
  λ j h.
      rw ((write_word-IsWritten raw (length raw - 4) (data_sum raw) (omega arith)).bytes j)
        (ground arith),
)
  where
    out : List ℕ
    out = put_word raw (length raw - 4) (data_sum raw)

    same_size : length out ≡ length raw
    same_size = length-put_word raw (length raw - 4) (data_sum raw)

    same_whole : length out % 4 ≡ 0
    same_whole = rw same_size p.whole

    same_long : 4 < length out
    same_long = rw same_size p.long

    last_word : word_at out (length raw - 4) ≡ data_sum raw
    last_word =
        word_at-put_self raw (length raw - 4) (data_sum raw) (omega arith)
          (xor_words-lt (length raw / 4 - 1) raw 0 0 p.bytes (omega arith))

    same_sum : xor_words (length raw / 4 - 1) out 0 0 ≡ data_sum raw
    same_sum =
        xor_words_ext (length raw / 4 - 1) raw out 0 0 λ j lo hi.
          word_at-put_ne raw (length raw - 4) j (data_sum raw) (omega arith) (omega arith)

    verified : verify_checksum out ≡ some true
    verified =
        rw (verify_checksum-eq out same_whole same_long)
          (rw (same_size, same_sum, last_word) (ground arith))

-- A packet that verifies no longer does when any one of its words, the checksum among them, is
-- replaced by another value.
pub verify_checksum_detects :
    (raw : List ℕ) (m v : ℕ)
    → IsPacket raw
    → verify_checksum raw ≡ some true
    → 4 * m + 4 ≤ length raw
    → v < 2 ^ 32
    → v ≢ word_at raw (4 * m)
    → verify_checksum (put_word raw (4 * m) v) ≡ some false
verify_checksum_detects raw m v p e inside fits differs = ground (
  arith,
  verify-altered raw m v p inside fits,
  verify_checksum-eq raw p.whole p.long,
  altered_same raw m v p inside fits,
)
