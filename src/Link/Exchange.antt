-- ===== src/Link/Exchange.antt =====
-- The exchange of the key of a connection: outls/blowfishkey.go of the game server, and
-- ings/blowfishkey.go with handlers/gameserver/blowfishkey.go of the login server. The numbers of an
-- RSA key are a parameter; a big.Int is a natural number.
pub mod Numbers
pub mod Laws
pub mod Bounds
mod Tests
use l2go.Prelude.{
  ℕ, zero, suc, ◌+◌, ◌-◌, ◌*◌, ◌/◌, ◌%◌, ◌^◌, ◌≤◌, ◌<◌, ◌≡◌, Bool, true, false, not, Option, none,
  some, List, [], ◌∷◌, ◌++◌, ◌==◌, if◌then◌else◌, ltb, leb, length, take, drop, replicate,
}
use l2go.Packet.{le_value, new_writer}
use l2go.Packet.Fields.{Field, byte, dword, blob, write_fields}
use l2go.Link.Frame.{GameServer}

-- A key pair whose modulus has so many bytes. Decrypting undoes encrypting, and a Blowfish key is a
-- smaller number than the modulus.
pub record RsaKey : Type 0 where
  pub modulus : ℕ
  pub size : ℕ
  pub public_exponent : ℕ
  pub private_exponent : ℕ
  pub fits : modulus < 256 ^ size
  pub large : 256 ^ 16 ≤ modulus
  pub wide : 16 < size
  pub undoes :
      (m : ℕ) → m < modulus → (m ^ public_exponent % modulus) ^ private_exponent % modulus ≡ m

-- SetBytes: the big-endian value, from what was read so far.
unfoldable pub set_bytes : ℕ → List ℕ → ℕ
set_bytes m [] = m
set_bytes m (b ∷ bs) = set_bytes (m * 256 + b) bs

-- Bytes: the big-endian bytes without leading zeros, of a number of at most so many.
unfoldable pub big_bytes : ℕ → ℕ → List ℕ
big_bytes zero m = []
big_bytes (suc size) m =
    let rest = big_bytes size (m / 256) in if m == 0 then [] else rest ++ m % 256 ∷ []

unfoldable pub padded : ℕ → List ℕ → List ℕ
padded size bytes =
    if ltb (length bytes) size then replicate (size - length bytes) 0 ++ bytes else bytes

-- What the login server makes of the packet.
pub data Parsed : Type 0 where
  encrypted_key : List ℕ → Parsed
  rejected : Parsed
  panics : Parsed

-- `4 + keySize` wraps; a slice whose end is before its start panics.
unfoldable pub new_blow_fish_key : List ℕ → Parsed
new_blow_fish_key data' =
    let key_size = le_value (take 4 data') in
    let end = (4 + key_size) % 2 ^ 32 in
    if ltb (length data') 4
    then rejected
    else if ltb (length data') end
    then rejected
    else if ltb end 4
    then panics
    else encrypted_key (take key_size (drop 4 data'))

abbrev pub after_zero : Option ℕ → Option ℕ
after_zero none = none
after_zero (some i) = some (suc i)

-- The loop for the first byte that is not zero.
unfoldable pub start_index : List ℕ → Option ℕ
start_index [] = none
start_index (b ∷ bs) = let rest = after_zero (start_index bs) in if b == 0 then rest else some 0

unfoldable pub actual_key : List ℕ → List ℕ
actual_key rest =
    if leb 22 (length rest)
    then if leb 40 (length rest) then take 40 rest else take 22 rest
    else rest

unfoldable pub key_in : List ℕ → List ℕ
key_in decrypted = elim (start_index decrypted) [
  | none ↦ decrypted
  | some i ↦ actual_key (drop i decrypted)
]

module _ (rsa : RsaKey) where
  unfoldable pub encrypted : List ℕ → List ℕ
  encrypted blowfish_key =
      let m = set_bytes 0 blowfish_key in
      padded rsa.size (big_bytes rsa.size (m ^ rsa.public_exponent % rsa.modulus))

  -- What Write writes after the opcode.
  unfoldable pub blow_fish_key_fields : List ℕ → List Field
  blow_fish_key_fields blowfish_key =
      dword (length (encrypted blowfish_key) % 2 ^ 32) ∷ blob (encrypted blowfish_key) ∷ []

  unfoldable pub write : List ℕ → List ℕ
  write blowfish_key = write_fields new_writer (byte 0x00 ∷ blow_fish_key_fields blowfish_key)

  unfoldable pub rsa_decrypt_no_padding : List ℕ → Option (List ℕ)
  rsa_decrypt_no_padding cipher =
      let m = set_bytes 0 cipher ^ rsa.private_exponent % rsa.modulus in
      if not (length cipher == rsa.size)
      then none
      else some (padded rsa.size (big_bytes rsa.size m))

  unfoldable pub decrypt_key : List ℕ → Option (List ℕ)
  decrypt_key bytes = elim (rsa_decrypt_no_padding bytes) [
    | none ↦ none
    | some decrypted ↦ some (key_in decrypted)
  ]

  -- `none` is an error, or the panic of the parser.
  unfoldable pub handle_blow_fish_key : List ℕ → Option GameServer
  handle_blow_fish_key data' = elim (new_blow_fish_key data') [
    | rejected ↦ none
    | panics ↦ none
    | encrypted_key bytes ↦ elim (decrypt_key bytes) [
      | none ↦ none
      | some key ↦ some (record { dynamic_blowfish_key = some key })
    ]
  ]
