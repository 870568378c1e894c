-- ===== src/Crypt/Checksum/Tests.antt =====
-- Packets of a few words: two data words and their checksum.
use l2go.Prelude.{
  ℕ, ◌+◌, ◌<◌, ◌≡◌, refl, Bool, true, false, some, List, [], ◌∷◌, arith, length, get_or,
}
use l2go.Crypt.Words.{put_word, All-IsBytes, read_word, write_word, word_at}
use l2go.Crypt.Checksum.{sum_words, verify_checksum, verify_checksum_client, append_checksum}
use l2go.Crypt.Checksum.Loop.{IsPacket}
use l2go.Crypt.Checksum.Laws.{checksum_total, verify-append_checksum, verify_checksum_detects}

abbrev packet : List ℕ
packet = 1 ∷ 2 ∷ 3 ∷ 250 ∷ 7 ∷ 0 ∷ 0 ∷ 9 ∷ 6 ∷ 2 ∷ 3 ∷ 243 ∷ []

packet-IsPacket : IsPacket packet
packet-IsPacket = record {
  whole = refl;
  long = omega arith;
  bytes = All-IsBytes packet (omega arith);
}

packet_verifies : verify_checksum packet ≡ some true
unfolding verify_checksum sum_words read_word
packet_verifies = refl

append_writes : append_checksum (put_word packet 8 0) ≡ some packet
unfolding append_checksum sum_words read_word write_word
append_writes = refl

short_fails : verify_checksum (0 ∷ 0 ∷ 0 ∷ 0 ∷ []) ≡ some false
unfolding verify_checksum
short_fails = refl

abbrev ragged : List ℕ
ragged = 1 ∷ 2 ∷ 3 ∷ []

checksum_total_example :
    ((b : Bool) × (verify_checksum ragged ≡ some b))
    × ((b : Bool) × (verify_checksum_client ragged ≡ some b))
    × ((out : List ℕ) × (append_checksum ragged ≡ some out))
checksum_total_example = checksum_total ragged

verify-append_checksum_example :
    (out : List ℕ) × (append_checksum packet ≡ some out)
    × (verify_checksum out ≡ some true)
    × (length out ≡ 12)
    × ((j : ℕ) → j + 4 < 12 → get_or out j 0 ≡ get_or packet j 0)
verify-append_checksum_example = verify-append_checksum packet packet-IsPacket

verify_checksum_detects_example : verify_checksum (put_word packet 4 1) ≡ some false
unfolding word_at
verify_checksum_detects_example =
    verify_checksum_detects packet 1 1 packet-IsPacket packet_verifies (omega arith) (omega arith)
      (omega arith)
