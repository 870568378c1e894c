-- ===== src/Link/Outls.antt =====
-- internal/gameserver/packets/outls: what a game server sends to the login server. Texts are their
-- code points; an int goes by its low bits, as the conversions of the source take them.
use l2go.Prelude.{ℕ, ◌%◌, ◌^◌, Bool, List, [], ◌∷◌, if◌then◌else◌, length, map, replicate}
use l2go.Packet.{new_writer}
use l2go.Packet.Fields.{Field, byte, half, dword, qword, blob, text, write_fields}

pub record AuthRequest : Type 0 where
  pub version : ℕ
  pub desired_id : ℕ
  pub accept_alternate_id : Bool
  pub reserve_host : Bool
  pub port : ℕ
  pub max_players : ℕ
  pub hex_id : List ℕ
  pub subnets : List (List ℕ)
  pub hosts : List (List ℕ)

abbrev pub byte_of : ℕ → Field
byte_of v = byte (v % 2 ^ 8)

abbrev pub dword_of : ℕ → Field
dword_of v = dword (v % 2 ^ 32)

abbrev pub flag : Bool → Field
flag b = byte (if b then 1 else 0)

-- The loop over the subnets: a host that is missing is sent as the empty text.
unfoldable pub host_fields : List (List ℕ) → List (List ℕ) → List Field
host_fields [] hosts = []
host_fields (s ∷ subnets) [] = text s ∷ text [] ∷ host_fields subnets []
host_fields (s ∷ subnets) (h ∷ hosts) = text s ∷ text h ∷ host_fields subnets hosts

unfoldable pub auth_request_fields : AuthRequest → List Field
auth_request_fields ar =
    byte_of ar.version
    ∷ byte_of ar.desired_id
    ∷ flag ar.accept_alternate_id
    ∷ flag ar.reserve_host
    ∷ half (ar.port % 2 ^ 16)
    ∷ dword_of ar.max_players
    ∷ dword_of (length ar.hex_id)
    ∷ blob ar.hex_id
    ∷ dword_of (length ar.subnets)
    ∷ host_fields ar.subnets ar.hosts

pub record SessionKey : Type 0 where
  pub play_ok_id1 : ℕ
  pub play_ok_id2 : ℕ
  pub login_ok_id1 : ℕ
  pub login_ok_id2 : ℕ

unfoldable pub player_auth_request_fields : List ℕ → SessionKey → List Field
player_auth_request_fields account key =
    text account
    ∷ dword key.play_ok_id1
    ∷ dword key.play_ok_id2
    ∷ dword key.login_ok_id1
    ∷ dword key.login_ok_id2
    ∷ []

-- `buffer.WriteQ(0)` for each character that is to be deleted.
unfoldable pub reply_characters_fields : List ℕ → ℕ → ℕ → List Field
reply_characters_fields account char_count chars_in_del =
    text account ∷ byte_of char_count ∷ byte_of chars_in_del ∷ replicate chars_in_del (qword 0)

pub record ServerStatus : Type 0 where
  pub server_id : ℕ
  pub server_status : ℕ
  pub port : ℕ
  pub max_players : ℕ
  pub server_type : ℕ
  pub min_level : ℕ
  pub max_level : ℕ
  pub age_limit : ℕ
  pub show_brackets : Bool
  pub pvp : Bool
  pub test_server : Bool
  pub show_clock : Bool

unfoldable pub server_status_fields : ServerStatus → List Field
server_status_fields ss =
    byte_of ss.server_id
    ∷ dword_of ss.server_status
    ∷ dword_of ss.port
    ∷ dword_of ss.max_players
    ∷ dword_of ss.server_type
    ∷ dword_of ss.min_level
    ∷ dword_of ss.max_level
    ∷ dword_of ss.age_limit
    ∷ flag ss.show_brackets
    ∷ flag ss.pvp
    ∷ flag ss.test_server
    ∷ flag ss.show_clock
    ∷ []

abbrev pub player_in_game_fields : List (List ℕ) → List Field
player_in_game_fields players = half (length players % 2 ^ 16) ∷ map text players

abbrev pub player_logout_fields : List ℕ → List Field
player_logout_fields account = text account ∷ []

abbrev pub player_tracert_fields : List ℕ → List ℕ → List ℕ → List ℕ → List ℕ → List ℕ → List Field
player_tracert_fields account pc_ip hop1 hop2 hop3 hop4 =
    text account ∷ text pc_ip ∷ text hop1 ∷ text hop2 ∷ text hop3 ∷ text hop4 ∷ []

abbrev pub change_password_fields : List ℕ → List ℕ → List ℕ → List ℕ → List Field
change_password_fields account character old new =
    text account ∷ text character ∷ text old ∷ text new ∷ []

-- The packets, each with the arguments of its constructor in the source.
pub data Packet : Type 0 where
  auth_request : AuthRequest → Packet
  player_in_game : List (List ℕ) → Packet
  player_logout : List ℕ → Packet
  player_auth_request : List ℕ → SessionKey → Packet
  server_status : ServerStatus → Packet
  player_tracert : List ℕ → List ℕ → List ℕ → List ℕ → List ℕ → List ℕ → Packet
  reply_characters : List ℕ → ℕ → ℕ → Packet
  change_password : List ℕ → List ℕ → List ℕ → List ℕ → Packet

abbrev pub opcode : Packet → ℕ
opcode (auth_request ar) = 0x01
opcode (player_in_game players) = 0x02
opcode (player_logout account) = 0x03
opcode (player_auth_request account key) = 0x05
opcode (server_status ss) = 0x06
opcode (player_tracert account pc_ip hop1 hop2 hop3 hop4) = 0x07
opcode (reply_characters account char_count chars_in_del) = 0x08
opcode (change_password account character old new) = 0x0b

-- What follows the opcode.
unfoldable pub fields : Packet → List Field
fields (auth_request ar) = auth_request_fields ar
fields (player_in_game players) = player_in_game_fields players
fields (player_logout account) = player_logout_fields account
fields (player_auth_request account key) = player_auth_request_fields account key
fields (server_status ss) = server_status_fields ss
fields (player_tracert account pc_ip hop1 hop2 hop3 hop4) =
    player_tracert_fields account pc_ip hop1 hop2 hop3 hop4
fields (reply_characters account char_count chars_in_del) =
    reply_characters_fields account char_count chars_in_del
fields (change_password account character old new) =
    change_password_fields account character old new

-- GetData of each packet: one call of the writer for each field.
unfoldable pub get_data : Packet → List ℕ
get_data p = write_fields new_writer (byte (opcode p) ∷ fields p)
