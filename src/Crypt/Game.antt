-- ===== src/Crypt/Game.antt =====
-- internal/gameserver/transport/gamecrypt/crypt.go: the cipher of the game connection. Each
-- direction has its own 16-byte key and its own switch.
pub mod Laws
mod Tests
use l2go.Prelude.{
  ℕ, suc, ◌+◌, ◌/◌, ◌%◌, ◌^◌, bit_xor, Bool, true, false, List, [], ◌∷◌, leb, if◌then◌else◌, length,
  get_or, set, take, replicate,
}
use l2go.Crypt.Words.{word_at, put_word}

pub record Crypt : Type 0 where
  pub in_key : List ℕ
  pub out_key : List ℕ
  pub in_enabled : Bool
  pub out_enabled : Bool

abbrev pub new : Crypt
new = record {
  in_key = replicate 16 0;
  out_key = replicate 16 0;
  in_enabled = false;
  out_enabled = false;
}

pub set_key : Crypt → List ℕ → Crypt
set_key c key =
    if leb 16 (length key) then record c { in_key = take 16 key; out_key = take 16 key } else c

pub enable_decrypt : Crypt → Crypt
enable_decrypt c = record c { in_enabled = true }

-- The loops, from index `i` with the last byte of cipher text in `temp`. The key is an array of
-- 16 bytes, so `key[i&15]` is always in range.
pub decrypt_from : List ℕ → ℕ → ℕ → List ℕ → List ℕ
decrypt_from key i temp [] = []
decrypt_from key i temp (temp2 ∷ raw) =
    bit_xor (bit_xor temp2 (get_or key (i % 16) 0)) temp % 2 ^ 8
    ∷ decrypt_from key (i + 1) temp2 raw

pub encrypt_from : List ℕ → ℕ → ℕ → List ℕ → List ℕ
encrypt_from key i temp [] = []
encrypt_from key i temp (temp2 ∷ raw) =
    let next = bit_xor (bit_xor temp2 (get_or key (i % 16) 0)) temp in
    next % 2 ^ 8 ∷ encrypt_from key (i + 1) next raw

-- "advance bytes 8..11 by size". `old` is an int of 64 bits; only its low 32 are kept.
pub advance : List ℕ → ℕ → List ℕ
advance key size = put_word key 8 (word_at key 8 + size)

pub decrypt : Crypt → List ℕ → Crypt × List ℕ
decrypt c raw =
    if c.in_enabled
    then (record c { in_key = advance c.in_key (length raw) }, decrypt_from c.in_key 0 0 raw)
    else (c, raw)

pub encrypt : Crypt → List ℕ → Crypt × List ℕ
encrypt c raw =
    if c.out_enabled
    then (record c { out_key = advance c.out_key (length raw) }, encrypt_from c.out_key 0 0 raw)
    else (record c { out_enabled = true }, raw)
