-- ===== src/Link/Agree.antt =====
-- The two ends agree: the login server takes every packet of a game server for what it is.
pub mod Reads
pub mod Parses
pub mod Auth
pub mod Laws
use l2go.Prelude.{
  ℕ, ◌%◌, ◌^◌, ◌<◌, ◌≢◌, Bool, Option, none, some, List, [], ◌∷◌, All, if◌then◌else◌, length,
  replicate,
}
use l2go.Packet.Utf16.{IsRune}
use l2go.Link.Outls
use l2go.Link.Ings
use l2go.Link.Ings.{Message}

abbrev pub IsText : List ℕ → Type 0
IsText s = All IsRune s

-- The values that a packet can carry.
abbrev pub Fits : Outls.Packet → Type 0
Fits (Outls.auth_request ar) =
    (ar.hex_id ≢ [])
    × (length ar.hex_id < 2 ^ 32)
    × (length ar.subnets < 2 ^ 32)
    × All IsText ar.subnets
    × All IsText ar.hosts
Fits (Outls.player_in_game players) = Unit
Fits (Outls.player_logout account) = IsText account
Fits (Outls.player_auth_request account key) =
    IsText account
    × (key.play_ok_id1 < 2 ^ 32)
    × (key.play_ok_id2 < 2 ^ 32)
    × (key.login_ok_id1 < 2 ^ 32)
    × (key.login_ok_id2 < 2 ^ 32)
Fits (Outls.server_status ss) = Unit
Fits (Outls.player_tracert account pc_ip hop1 hop2 hop3 hop4) =
    IsText account × IsText pc_ip × IsText hop1 × IsText hop2 × IsText hop3 × IsText hop4
Fits (Outls.reply_characters account char_count chars_in_del) =
    IsText account × (account ≢ []) × (chars_in_del < 2 ^ 8)
Fits (Outls.change_password account character old new) = Unit

-- A host for every subnet, the empty one where there are too few.
pub paired_hosts : List (List ℕ) → List (List ℕ) → List (List ℕ)
paired_hosts [] hosts = []
paired_hosts (s ∷ subnets) [] = [] ∷ paired_hosts subnets []
paired_hosts (s ∷ subnets) (h ∷ hosts) = h ∷ paired_hosts subnets hosts

-- What the login server is to make of the packet of an authenticated game server; it knows no change
-- of password.
abbrev pub expected : Outls.Packet → Option Message
expected (Outls.auth_request ar) = some (
    Ings.auth_request (record {
      version = ar.version % 2 ^ 8;
      id = ar.desired_id % 2 ^ 8;
      accept_alternate = ar.accept_alternate_id;
      reserve_host = ar.reserve_host;
      port = ar.port % 2 ^ 16;
      max_players = ar.max_players % 2 ^ 32;
      hex_id = ar.hex_id;
      subnets = ar.subnets;
      hosts = paired_hosts ar.subnets ar.hosts;
    }))
expected (Outls.player_in_game players) = some Ings.player_in_game
expected (Outls.player_logout account) = some (Ings.player_logout account)
expected (Outls.player_auth_request account key) = some (
    Ings.player_auth_request (record {
      account = account;
      play_key1 = key.play_ok_id1;
      play_key2 = key.play_ok_id2;
      login_key1 = key.login_ok_id1;
      login_key2 = key.login_ok_id2;
    }))
expected (Outls.server_status ss) = some Ings.server_status
expected (Outls.player_tracert account pc_ip hop1 hop2 hop3 hop4) = some (
    Ings.player_tracert (record {
      account = account;
      pc_ip = pc_ip;
      hop1 = hop1;
      hop2 = hop2;
      hop3 = hop3;
      hop4 = hop4;
    }))
expected (Outls.reply_characters account char_count chars_in_del) = some (
    Ings.reply_characters (record {
      account = account;
      character_count = char_count % 2 ^ 8;
      deletion_count = chars_in_del;
      deletion_times = replicate chars_in_del 0;
    }))
expected (Outls.change_password account character old new) = none

-- A game server that is not authenticated can only ask to be.
abbrev pub expected_of : Bool → Outls.Packet → Option Message
expected_of authenticated (Outls.auth_request ar) = expected (Outls.auth_request ar)
expected_of authenticated (Outls.change_password account character old new) = none
expected_of authenticated p = if authenticated then expected p else none
