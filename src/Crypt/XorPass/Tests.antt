-- ===== src/Crypt/XorPass/Tests.antt =====
-- A region of five words: one skipped, two encrypted, the key and the last.
use l2go.Prelude.{ℕ, ◌≡◌, refl, Option, some, List, [], ◌∷◌, arith}
use l2go.Crypt.Words.{put_word, All-IsBytes, read_word, write_word}
use l2go.Crypt.XorPass.{enc_xor_pass, dec_xor_pass, enc_loop}
use l2go.Crypt.XorPass.Laws.{IsRegion, dec-enc_xor_pass}

abbrev plain : List ℕ
plain = 9 ∷ 9 ∷ 9 ∷ 9 ∷ 1 ∷ 2 ∷ 3 ∷ 4 ∷ 255 ∷ 255 ∷ 255 ∷ 255 ∷ 0 ∷ 0 ∷ 0 ∷ 0 ∷ 5 ∷ 5 ∷ 5 ∷ 5 ∷ []

plain-IsRegion : IsRegion plain 0 20
plain-IsRegion = record {
  whole = refl;
  room = omega arith;
  inside = omega arith;
  bytes = All-IsBytes plain (omega arith);
}

plain_encrypts :
    enc_xor_pass plain 0 20 0x10
    ≡ some (
        9 ∷ 9 ∷ 9 ∷ 9 ∷ 16 ∷ 0 ∷ 0 ∷ 0 ∷ 239 ∷ 253 ∷ 252 ∷ 251 ∷ 16 ∷ 2 ∷ 3 ∷ 4 ∷ 5 ∷ 5 ∷ 5 ∷ 5
        ∷ [])
unfolding enc_xor_pass enc_loop read_word write_word
plain_encrypts = refl

-- A slice too short for the key is a panic.
short_panics : enc_xor_pass (1 ∷ 2 ∷ 3 ∷ 4 ∷ []) 0 4 7 ≡ Option.none
unfolding enc_xor_pass enc_loop read_word write_word
short_panics = refl

dec-enc_xor_pass_example :
    (out : List ℕ) × (enc_xor_pass plain 0 20 0x10 ≡ some out)
    × (dec_xor_pass out 0 20 ≡ some (put_word plain 12 0))
dec-enc_xor_pass_example = dec-enc_xor_pass plain 0 20 0x10 plain-IsRegion (omega arith)
