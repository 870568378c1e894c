-- ===== src/Link/Ings.antt =====
-- internal/loginserver/packets/ings: what the login server reads of a game server's packets, and
-- which packet it takes each opcode for.
use l2go.Prelude.{
  ℕ, zero, suc, Bool, not, Option, none, some, List, [], ◌∷◌, ◌==◌, ltb, if◌then◌else◌, length,
}
use l2go.Prelude.Nested.{is_empty}
use l2go.Link.Buffer.{read_bytes, read_uint8, read_uint16, read_uint32, read_uint64, read_string}

pub record AuthRequest : Type 0 where
  pub version : ℕ
  pub id : ℕ
  pub accept_alternate : Bool
  pub reserve_host : Bool
  pub port : ℕ
  pub max_players : ℕ
  pub hex_id : List ℕ
  pub subnets : List (List ℕ)
  pub hosts : List (List ℕ)

-- The loop over the pairs of a subnet and a host.
unfoldable pub read_hosts : ℕ → List ℕ → List (List ℕ) × List (List ℕ)
read_hosts zero r = ([], [])
read_hosts (suc size) r =
    let (subnet, r1) = read_string r in
    let (host, r2) = read_string r1 in
    let (subnets, hosts) = read_hosts size r2 in (subnet ∷ subnets, host ∷ hosts)

-- `none` is nil, a packet that is not taken.
unfoldable pub new_auth_request : List ℕ → Option AuthRequest
new_auth_request data' =
    let (version, r1) = read_uint8 data' in
    let (id, r2) = read_uint8 r1 in
    let (accept_alternate, r3) = read_uint8 r2 in
    let (reserve_host, r4) = read_uint8 r3 in
    let (port, r5) = read_uint16 r4 in
    let (max_players, r6) = read_uint32 r5 in
    let (hex_id_size, r7) = read_uint32 r6 in
    let (hex_id, r8) = read_bytes hex_id_size r7 in
    let (subnet_size, r9) = read_uint32 r8 in
    if ltb (length data') 10
    then none
    else if is_empty hex_id
    then none
    else some (record {
      version = version;
      id = id;
      accept_alternate = not (accept_alternate == 0);
      reserve_host = not (reserve_host == 0);
      port = port;
      max_players = max_players;
      hex_id = hex_id;
      subnets = (read_hosts subnet_size r9).0;
      hosts = (read_hosts subnet_size r9).1;
    })

pub record PlayerAuthRequest : Type 0 where
  pub account : List ℕ
  pub play_key1 : ℕ
  pub play_key2 : ℕ
  pub login_key1 : ℕ
  pub login_key2 : ℕ

unfoldable pub new_player_auth_request : List ℕ → Option PlayerAuthRequest
new_player_auth_request data' =
    let (account, r1) = read_string data' in
    let (play_key1, r2) = read_uint32 r1 in
    let (play_key2, r3) = read_uint32 r2 in
    let (login_key1, r4) = read_uint32 r3 in
    let (login_key2, r5) = read_uint32 r4 in
    if ltb (length data') 18
    then none
    else some (record {
      account = account;
      play_key1 = play_key1;
      play_key2 = play_key2;
      login_key1 = login_key1;
      login_key2 = login_key2;
    })

unfoldable pub new_player_logout : List ℕ → Option (List ℕ)
new_player_logout data' = if ltb (length data') 2 then none else some (read_string data').0

pub record PlayerTracert : Type 0 where
  pub account : List ℕ
  pub pc_ip : List ℕ
  pub hop1 : List ℕ
  pub hop2 : List ℕ
  pub hop3 : List ℕ
  pub hop4 : List ℕ

unfoldable pub new_player_tracert : List ℕ → Option PlayerTracert
new_player_tracert data' =
    let (account, r1) = read_string data' in
    let (pc_ip, r2) = read_string r1 in
    let (hop1, r3) = read_string r2 in
    let (hop2, r4) = read_string r3 in
    let (hop3, r5) = read_string r4 in
    let (hop4, r6) = read_string r5 in
    if ltb (length data') 2
    then none
    else some (record {
      account = account;
      pc_ip = pc_ip;
      hop1 = hop1;
      hop2 = hop2;
      hop3 = hop3;
      hop4 = hop4;
    })

pub record ReplyCharacters : Type 0 where
  pub account : List ℕ
  pub character_count : ℕ
  pub deletion_count : ℕ
  pub deletion_times : List ℕ

unfoldable pub read_times : ℕ → List ℕ → List ℕ
read_times zero r = []
read_times (suc n) r = let (timestamp, r') = read_uint64 r in timestamp ∷ read_times n r'

unfoldable pub new_reply_characters : List ℕ → Option ReplyCharacters
new_reply_characters data' =
    let (account, r1) = read_string data' in
    let (char_count, r2) = read_uint8 r1 in
    let (deletion_count, r3) = read_uint8 r2 in
    if ltb (length data') 3
    then none
    else if is_empty account
    then none
    else some (record {
      account = account;
      character_count = char_count;
      deletion_count = deletion_count;
      deletion_times = read_times deletion_count r3;
    })

-- What the handlers are given. Two of them look at no field, and the number of players in game is
-- only logged.
pub data Message : Type 0 where
  auth_request : AuthRequest → Message
  player_in_game : Message
  player_logout : List ℕ → Message
  player_auth_request : PlayerAuthRequest → Message
  server_status : Message
  player_tracert : PlayerTracert → Message
  reply_characters : ReplyCharacters → Message

abbrev pub taken {ℓ} : {A : Type ℓ} → (A → Message) → Option A → Option Message
taken f none = none
taken f (some a) = some (f a)

-- The check at the head of every handler but that of an AuthRequest.
abbrev pub if_authenticated : Bool → Option Message → Option Message
if_authenticated authenticated message = if authenticated then message else none

-- The switch of handlePacket, but for the key exchange, with what each handler does first: whether
-- the game server is authenticated, and the parse. `none` is an error, which ends the connection.
unfoldable pub parse : Bool → ℕ → List ℕ → Option Message
parse authenticated opcode data' =
    if opcode == 0x01
    then taken auth_request (new_auth_request data')
    else if opcode == 0x02
    then if_authenticated authenticated (some player_in_game)
    else if opcode == 0x03
    then if_authenticated authenticated (taken player_logout (new_player_logout data'))
    else if opcode == 0x05
    then if_authenticated authenticated (taken player_auth_request (new_player_auth_request data'))
    else if opcode == 0x06
    then if_authenticated authenticated (some server_status)
    else if opcode == 0x07
    then if_authenticated authenticated (taken player_tracert (new_player_tracert data'))
    else if opcode == 0x08
    then if_authenticated authenticated (taken reply_characters (new_reply_characters data'))
    else none
