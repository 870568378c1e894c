-- ===== src/Crypt/Blocks/Tests.antt =====
-- A toy block cipher that turns a block round.
use mathlib.Core.List.{reverse, reverse-reverse, reverse-cons}
use l2go.Prelude.{
  ◌∙◌, ℕ, ◌≤◌, ◌≡◌, refl, ap, ◌&&◌, Option, none, some, List, [], ◌∷◌, arith, leb, length,
  length-append, if◌then◌else◌,
}
use l2go.Crypt.Blocks.{BlockCipher, ok, blowfish_encrypt, blowfish_decrypt, static_blowfish_key}
use l2go.Crypt.Blocks.Laws.{blowfish_decrypt-encrypt}

length-reverse : (xs : List ℕ) → length (reverse xs) ≡ length xs
length-reverse [] = refl
length-reverse (x ∷ xs) =
    omega
      (arith, ap length (reverse-cons x xs), length-append (reverse xs) (x ∷ []), length-reverse xs)

abbrev turn_key : List ℕ → Option (Unit {0})
turn_key key = if leb 1 (length key) && leb (length key) 56 then some tt else none

turn_key_size :
    (key : List ℕ) → 1 ≤ length key → length key ≤ 56 → (c : Unit {0}) × (turn_key key ≡ some c)
turn_key_size key lo hi = (tt, ground arith)

abbrev turning : BlockCipher
turning = record {
  Cipher = Unit {0};
  new_cipher = turn_key;
  encrypt_block = λ c b. reverse b;
  decrypt_block = λ c b. reverse b;
  key_size = turn_key_size;
  encrypted_size = λ c b e. length-reverse b ∙ e;
  undoes = λ c b e. reverse-reverse b;
}

abbrev two_blocks : List ℕ
two_blocks = 1 ∷ 2 ∷ 3 ∷ 4 ∷ 5 ∷ 6 ∷ 7 ∷ 8 ∷ 9 ∷ 10 ∷ 11 ∷ 12 ∷ 13 ∷ 14 ∷ 15 ∷ 16 ∷ []

blowfish_decrypt-encrypt_example :
    (out : List ℕ) × (blowfish_encrypt turning two_blocks static_blowfish_key ≡ ok out)
    × (length out ≡ 16)
    × (blowfish_decrypt turning out static_blowfish_key ≡ ok two_blocks)
blowfish_decrypt-encrypt_example =
    blowfish_decrypt-encrypt turning two_blocks static_blowfish_key refl (omega arith) (omega arith)
