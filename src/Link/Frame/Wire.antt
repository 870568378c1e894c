-- ===== src/Link/Frame/Wire.antt =====
-- What either end puts on the wire for a packet.
use l2go.Prelude.{
  ℕ, ◌+◌, ◌%◌, ◌^◌, ◌≤◌, ◌<◌, ◌≡◌, refl, ap, Option, none, some, List, ◌++◌, All, arith, length,
}
use l2go.Packet.{le_bytes}
use l2go.Crypt.Checksum.{append_checksum}
use l2go.Crypt.Blocks.{
  BlockCipher, ok, blowfish_encrypt, blowfish_decrypt, blowfish_encrypt_game_server,
  game_server_blowfish_key,
}
use l2go.Crypt.Blocks.Laws.{blowfish_decrypt-encrypt}
use l2go.Link.Frame.{
  LoginServerConnection, new_login_server_connection, set_blowfish_key, GameServer, pad_packet,
  framed, login_server_connection_send, game_server_send,
}
use l2go.Link.Frame.Sealed.{IsSealed, sealed}

-- The two ends before and after the exchange of a key.
abbrev pub game_end : Option (List ℕ) → LoginServerConnection
game_end none = new_login_server_connection
game_end (some key) = set_blowfish_key new_login_server_connection key

abbrev pub login_end : Option (List ℕ) → GameServer
login_end k = record { dynamic_blowfish_key = k }

abbrev pub key_of : Option (List ℕ) → List ℕ
key_of none = game_server_blowfish_key
key_of (some key) = key

abbrev pub IsKey : Option (List ℕ) → Type 0
IsKey k = (1 ≤ length (key_of k)) × (length (key_of k) ≤ 56)

module _ (b : BlockCipher) where
  -- What goes over the wire for a packet.
  pub record IsWire (k : Option (List ℕ)) (packet wire : List ℕ) : Type 0 where
    pub plain : List ℕ
    pub encrypted : List ℕ
    pub is_sealed : IsSealed packet plain
    pub encrypts : blowfish_encrypt b plain (key_of k) ≡ ok encrypted
    pub decrypts : blowfish_decrypt b encrypted (key_of k) ≡ ok plain
    pub size : length encrypted ≡ length plain
    pub is_framed : wire ≡ le_bytes 2 (length encrypted + 2) ++ encrypted
    pub fits : length encrypted + 2 < 2 ^ 16

  wire_of :
      (k : Option (List ℕ)) (packet : List ℕ)
      → IsKey k
      → 1 ≤ length packet
      → length packet < 65522
      → All (λ x. x < 256) packet
      → (plain : List ℕ) × (encrypted : List ℕ) × (append_checksum (pad_packet packet) ≡ some plain)
        × (blowfish_encrypt b plain (key_of k) ≡ ok encrypted)
        × IsWire k packet (framed encrypted)
  unfolding framed
  wire_of k packet ik long short bytes =
      let (plain, s) = sealed packet long bytes in
      let (encrypted, made, size, back) =
        blowfish_decrypt-encrypt b plain (key_of k) s.whole ik.0 ik.1 in
      let fits : length encrypted + 2 < 2 ^ 16 = omega (arith, s.tight, size) in
      let exact : (length encrypted + 2) % 2 ^ 16 ≡ length encrypted + 2 = omega (arith, fits) in
      (
        plain,
        encrypted,
        s.made,
        made,
        record {
          plain = plain;
          encrypted = encrypted;
          is_sealed = s;
          encrypts = made;
          decrypts = back;
          size = size;
          is_framed = ap (λ v. le_bytes 2 v ++ encrypted) exact;
          fits = fits;
        },
      )

  pub game_end_sends :
      (k : Option (List ℕ)) (packet : List ℕ)
      → IsKey k
      → 1 ≤ length packet
      → length packet < 65522
      → All (λ x. x < 256) packet
      → (wire : List ℕ) × (login_server_connection_send b (game_end k) packet ≡ some wire)
        × IsWire k packet wire
  unfolding login_server_connection_send new_login_server_connection set_blowfish_key
      blowfish_encrypt_game_server
  game_end_sends none packet ik long short bytes =
      let (plain, encrypted, made, sent, w) = wire_of none packet ik long short bytes in
      (framed encrypted, rw (made, sent) refl, w)
  game_end_sends (some key) packet ik long short bytes =
      let (plain, encrypted, made, sent, w) = wire_of (some key) packet ik long short bytes in
      (framed encrypted, rw (made, sent) refl, w)

  pub login_end_sends :
      (k : Option (List ℕ)) (packet : List ℕ)
      → IsKey k
      → 1 ≤ length packet
      → length packet < 65522
      → All (λ x. x < 256) packet
      → (wire : List ℕ) × (game_server_send b (login_end k) packet ≡ some wire)
        × IsWire k packet wire
  unfolding game_server_send blowfish_encrypt_game_server
  login_end_sends none packet ik long short bytes =
      let (plain, encrypted, made, sent, w) = wire_of none packet ik long short bytes in
      (framed encrypted, rw (made, sent) refl, w)
  login_end_sends (some key) packet ik long short bytes =
      let (plain, encrypted, made, sent, w) = wire_of (some key) packet ik long short bytes in
      (framed encrypted, rw (made, sent) refl, w)
