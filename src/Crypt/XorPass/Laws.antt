-- ===== src/Crypt/XorPass/Laws.antt =====
-- Decryption runs the key back from the last block, so it undoes encryption without the key.
use l2go.Prelude.{
  ℕ, suc, ◌+◌, ◌-◌, ◌*◌, ◌/◌, ◌%◌, ◌^◌, ◌≤◌, ◌<◌, ◌≡◌, ap, ◌∙◌, some, List, arith, leb, false,
  length,
}
use l2go.Crypt.Words.{
  IsBytes, word_at, read_word-eq, write_word-IsWritten, word_at-put_self, length-put_word, put_word,
  put_word-IsBytes, put_word_twice,
}
use l2go.Crypt.XorPass.{enc_xor_pass, dec_xor_pass}
use l2go.Crypt.XorPass.Rounds.{
  enc_words, enc_loop-eq, blocks, collect-eq, undo, dec_loop-eq, enc_words-put, undo-enc_words,
  length-enc_words, length-blocks, enc_words_key-lt,
}

-- What the XOR pass expects: a region of whole words inside the slice, with room for the key.
pub record IsRegion (raw : List ℕ) (offset size : ℕ) : Type 0 where
  pub whole : size % 4 ≡ 0
  pub room : 12 ≤ size
  pub inside : offset + size ≤ length raw
  pub bytes : IsBytes raw

module _ (raw : List ℕ) (offset size key : ℕ) (r : IsRegion raw offset size)
    (k : key < 2 ^ 32) where
  abbrev stop : ℕ
  stop = offset + size - 8

  abbrev rounds : ℕ
  rounds = size / 4 - 3

  abbrev encrypted : List ℕ × ℕ
  encrypted = enc_words rounds raw (4 + offset) key

  abbrev sent : List ℕ
  sent = put_word encrypted.0 stop encrypted.1

  encrypted-length : length encrypted.0 ≡ length raw
  encrypted-length = length-enc_words rounds raw (4 + offset) key

  stop_fits : stop + 3 < length raw
  stop_fits = omega (arith, r.room, r.inside)

  stop-eq : 4 + offset + 4 * rounds ≡ stop
  stop-eq = omega (arith, r.whole, r.room)

  -- The slice as it would be if the key had been written first.
  abbrev keyed : List ℕ
  keyed = put_word raw stop encrypted.1

  sent-eq : enc_words rounds keyed (4 + offset) key ≡ (sent, encrypted.1)
  sent-eq =
      enc_words-put rounds raw (4 + offset) key stop encrypted.1 (omega (arith, stop-eq)) stop_fits

  undo-sent : undo (blocks rounds sent (4 + offset)) (4 + offset) encrypted.1 sent ≡ (keyed, key)
  undo-sent = rw sent-eq at (
      undo-enc_words rounds keyed (4 + offset) key
        (put_word-IsBytes raw stop encrypted.1 stop_fits r.bytes) k
        (rw (length-put_word raw stop) (omega (arith, stop-eq, stop_fits))))

  sent-length : length sent ≡ length raw
  sent-length = length-put_word encrypted.0 stop encrypted.1 ∙ encrypted-length

  final : word_at sent stop ≡ encrypted.1
  final =
      word_at-put_self encrypted.0 stop encrypted.1 (rw encrypted-length stop_fits)
        (enc_words_key-lt rounds raw (4 + offset) key k)

  enc_xor_pass-eq : enc_xor_pass raw offset size key ≡ some sent
  unfolding enc_xor_pass
  enc_xor_pass-eq =
      rw
        (enc_loop-eq rounds (suc size) raw (4 + offset) stop key (omega (arith, r.room))
          (omega (arith, r.whole, r.room)) (omega (arith, r.inside)))
        (write_word-IsWritten encrypted.0 stop encrypted.1
          (rw encrypted-length (omega (arith, r.room, r.inside)))).done

  dec_xor_pass-eq : dec_xor_pass sent offset size ≡ some (put_word raw stop 0)
  unfolding dec_xor_pass
  dec_xor_pass-eq =
      let long : leb size 8 ≡ false = ground (arith, r.room) in
      let sent_fits : stop + 3 < length sent = rw sent-length stop_fits in
      rw
        (
          long,
          read_word-eq sent stop sent_fits,
          final,
          collect-eq rounds (suc size) sent (4 + offset) stop (omega (arith, r.room)) stop-eq
              (omega (arith, sent_fits)),
          dec_loop-eq (blocks rounds sent (4 + offset)) (4 + offset) encrypted.1 sent
              (rw length-blocks (omega (arith, sent_fits, stop-eq))),
          undo-sent,
          (write_word-IsWritten keyed stop 0 (rw (length-put_word raw stop) stop_fits)).done,
        )
        (ap some (put_word_twice raw stop encrypted.1 0 stop_fits))

-- The pass succeeds on a region of whole words inside the slice, and decrypting what it wrote,
-- without the key, gives the bytes back, but for the word before the last of the region, which
-- held the key and is cleared.
pub dec-enc_xor_pass :
    (raw : List ℕ) (offset size key : ℕ)
    → IsRegion raw offset size
    → key < 2 ^ 32
    → (out : List ℕ) × (enc_xor_pass raw offset size key ≡ some out)
      × (dec_xor_pass out offset size ≡ some (put_word raw (offset + size - 8) 0))
dec-enc_xor_pass raw offset size key r k =
    (_, enc_xor_pass-eq raw offset size key r k, dec_xor_pass-eq raw offset size key r k)
