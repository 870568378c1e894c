-- ===== src/Crypt/Blocks.antt =====
-- BlowfishEncrypt and BlowfishDecrypt of pkg/crypt/crypt.go, with their static-key variants. The
-- block cipher itself, pkg/crypt/blowfish, is a copy of the vanilla package and a parameter here.
pub mod Laws
mod Tests
use l2go.Prelude.{
  ℕ, zero, suc, ◌+◌, ◌*◌, ◌/◌, ◌%◌, ◌≤◌, ◌≡◌, ◌↔◌, not, Option, none, some, List, [], ◌∷◌, ◌++◌,
  ◌==◌, if◌then◌else◌, length, take, drop,
}

abbrev pub static_blowfish_key : List ℕ
static_blowfish_key =
    0x6b ∷ 0x60 ∷ 0xcb ∷ 0x5b ∷ 0x82 ∷ 0xce ∷ 0x90 ∷ 0xb1 ∷ 0xcc ∷ 0x2b ∷ 0x6c ∷ 0x55 ∷ 0x6c ∷ 0x6c
    ∷ 0x6c ∷ 0x6c ∷ []

abbrev pub game_server_blowfish_key : List ℕ
game_server_blowfish_key =
    0x5f ∷ 0x3b ∷ 0x76 ∷ 0x2e ∷ 0x5d ∷ 0x30 ∷ 0x35 ∷ 0x2d ∷ 0x33 ∷ 0x31 ∷ 0x21 ∷ 0x7c ∷ 0x2b ∷ 0x2d
    ∷ 0x25 ∷ 0x78 ∷ 0x54 ∷ 0x21 ∷ 0x5e ∷ 0x5b ∷ 0x24 ∷ 0x00 ∷ []

-- What the callers rely on: NewCipher takes keys of 1 to 56 bytes, and on a block of 8 bytes the
-- two directions undo one another.
pub record BlockCipher : Type 1 where
  pub Cipher : Type 0
  pub new_cipher : List ℕ → Option Cipher
  pub encrypt_block : Cipher → List ℕ → List ℕ
  pub decrypt_block : Cipher → List ℕ → List ℕ
  pub key_size :
      (key : List ℕ) → 1 ≤ length key → length key ≤ 56 → (c : Cipher) × (new_cipher key ≡ some c)
  pub encrypted_size : (c : Cipher) (b : List ℕ) → length b ≡ 8 → length (encrypt_block c b) ≡ 8
  pub undoes : (c : Cipher) (b : List ℕ) → length b ≡ 8 → decrypt_block c (encrypt_block c b) ≡ b

pub data CryptError : Type 0 where
  bad_key bad_size : CryptError

pub data Result : Type 0 where
  ok : List ℕ → Result
  err : CryptError → Result

-- `for i := 0; i < count; i++`: round `i` reads the block at `i * 8` and fills the block at
-- `i * 8` of the new slice.
pub each_block : (List ℕ → List ℕ) → ℕ → ℕ → List ℕ → List ℕ
each_block f zero i raw = []
each_block f (suc left) i raw = f (take 8 (drop (i * 8) raw)) ++ each_block f left (i + 1) raw

module _ (b : BlockCipher) where
  open b use {new_cipher, encrypt_block, decrypt_block}

  pub blowfish_encrypt : List ℕ → List ℕ → Result
  blowfish_encrypt decrypted key = elim (new_cipher key) [
    | none ↦ err bad_key
    | some cipher ↦
        if not (length decrypted % 8 == 0)
        then err bad_size
        else ok (each_block (encrypt_block cipher) (length decrypted / 8) 0 decrypted)
  ]

  pub blowfish_decrypt : List ℕ → List ℕ → Result
  blowfish_decrypt encrypted key = elim (new_cipher key) [
    | none ↦ err bad_key
    | some cipher ↦
        if not (length encrypted % 8 == 0)
        then err bad_size
        else ok (each_block (decrypt_block cipher) (length encrypted / 8) 0 encrypted)
  ]

  pub blowfish_encrypt_static : List ℕ → Result
  blowfish_encrypt_static decrypted = blowfish_encrypt decrypted static_blowfish_key

  unfoldable pub blowfish_encrypt_game_server : List ℕ → Result
  blowfish_encrypt_game_server decrypted = blowfish_encrypt decrypted game_server_blowfish_key

  unfoldable pub blowfish_decrypt_game_server : List ℕ → Result
  blowfish_decrypt_game_server encrypted = blowfish_decrypt encrypted game_server_blowfish_key
