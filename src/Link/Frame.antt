-- ===== src/Link/Frame.antt =====
-- The frames: Send and Receive of LoginServerConnection, a game server's end, and of GameServer, the
-- login server's end. `none` is an error, or the panic of an index out of range.
pub mod Sealed
pub mod Socket
pub mod Wire
pub mod Laws
use l2go.Prelude.{
  ℕ, zero, suc, ◌+◌, ◌-◌, ◌*◌, ◌%◌, ◌^◌, Bool, true, false, not, ◌||◌, Option, none, some, List, [],
  ◌∷◌, ◌++◌, ltb, leb, ◌==◌, if◌then◌else◌, length, take, drop, get_or, replicate,
}
use l2go.Packet.{le_bytes, le_value}
use l2go.Crypt.Words.{◌>>=◌}
use l2go.Crypt.Checksum.{verify_checksum, append_checksum}
use l2go.Crypt.Blocks.{
  BlockCipher, Result, ok, err, blowfish_encrypt, blowfish_decrypt, blowfish_encrypt_game_server,
  blowfish_decrypt_game_server, game_server_blowfish_key,
}

abbrev pub result : Result → Option (List ℕ)
result (ok bs) = some bs
result (err e) = none

-- The game server's end.
pub record LoginServerConnection : Type 0 where
  pub blowfish_key : List ℕ
  pub use_new_key : Bool

pub new_login_server_connection : LoginServerConnection
new_login_server_connection = record {
  blowfish_key = game_server_blowfish_key;
  use_new_key = false;
}

pub set_blowfish_key : LoginServerConnection → List ℕ → LoginServerConnection
set_blowfish_key lsc key = record { blowfish_key = key; use_new_key = true }

-- The login server's end; `none` is the nil key of a connection that has none yet.
pub record GameServer : Type 0 where
  pub dynamic_blowfish_key : Option (List ℕ)

-- The room for the checksum, then zeros up to a multiple of 8.
pub pad_packet : List ℕ → List ℕ
pad_packet packet =
    let roomy = packet ++ replicate 4 0 in
    let missing = length roomy % 8 in
    if missing == 0 then roomy else roomy ++ replicate (8 - missing) 0

-- `uint16(len(data) + 2)`, and the data.
pub framed : List ℕ → List ℕ
framed bytes = le_bytes 2 ((length bytes + 2) % 2 ^ 16) ++ bytes

-- What arrives, in the portions that single reads return; a read of nothing returns at once, and
-- one at the end fails.
abbrev pub Socket : Type 0
Socket = List (List ℕ)

pub read_once : ℕ → Socket → Option (List ℕ × Socket)
read_once zero s = some ([], s)
read_once (suc n) [] = none
read_once (suc n) (c ∷ cs) =
    if leb (length c) (suc n) then some (c, cs) else some (take (suc n) c, drop (suc n) c ∷ cs)

-- `for totalRead < n`, with what was read so far. A portion is not empty, so that one more than n
-- rounds are enough.
pub read_full : ℕ → ℕ → List ℕ → Socket → Option (List ℕ × Socket)
read_full zero n got s = none
read_full (suc fuel) n got s =
    let round = (do (more, s') ← read_once (n - length got) s; read_full fuel n (got ++ more) s') in
    if ltb (length got) n then round else some (got, s)

-- What a receive returns: the opcode, the rest, and what is still to be read.
abbrev pub Received : Type 0
Received = ℕ × List ℕ × Socket

pub split_opcode : List ℕ → Socket → Option Received
split_opcode [] s = none
split_opcode (opcode ∷ rest) s = some (opcode, rest, s)

module _ (b : BlockCipher) where
  pub login_server_connection_send : LoginServerConnection → List ℕ → Option (List ℕ)
  login_server_connection_send lsc packet = do
    summed ← append_checksum (pad_packet packet)
    bytes ← result (
        if lsc.use_new_key
        then blowfish_encrypt b summed lsc.blowfish_key
        else blowfish_encrypt_game_server b summed)
    some (framed bytes)

  pub game_server_send : GameServer → List ℕ → Option (List ℕ)
  game_server_send gs packet = do
    summed ← append_checksum (pad_packet packet)
    bytes ← result (elim gs.dynamic_blowfish_key [
      | some key ↦ blowfish_encrypt b summed key
      | none ↦ blowfish_encrypt_game_server b summed
    ])
    some (framed bytes)

  -- The checksum stays at the end of what it returns.
  pub game_server_receive : GameServer → Socket → Option Received
  game_server_receive gs s = do
    (header, s1) ← read_once 2 s
    let size = get_or header 0 0 + get_or header 1 0 * 256
    (bytes, s2) ← if not (length header == 2) || ltb size 2 then none else read_once (size - 2) s1
    plain ←
        if not (length bytes == size - 2)
        then none
        else result (elim gs.dynamic_blowfish_key [
          | some key ↦ blowfish_decrypt b bytes key
          | none ↦ blowfish_decrypt_game_server b bytes
        ])
    verified ← verify_checksum plain
    if verified then split_opcode plain s2 else none

  pub login_server_connection_receive : LoginServerConnection → Socket → Option Received
  login_server_connection_receive lsc s = do
    (header, s1) ← read_full 3 2 [] s
    let total = le_value header
    (bytes, s2) ← if ltb total 7 then none else read_full (total - 1) (total - 2) [] s1
    plain ← result (blowfish_decrypt b bytes lsc.blowfish_key)
    verified ← verify_checksum plain
    if verified then split_opcode (take (length plain - 4) plain) s2 else none
