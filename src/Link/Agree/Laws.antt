-- ===== src/Link/Agree/Laws.antt =====
-- Every packet, through the switch over the opcodes.
use l2go.Prelude.{ℕ, ◌≡◌, refl, ap, ◌∙◌, Bool, Option, none, List, [], ◌∷◌, ◌++◌}
use l2go.Packet.{new_writer}
use l2go.Packet.Fields.{byte}
use l2go.Packet.RoundTrip.{field_bytes, fields_bytes, write_fields-eq}
use l2go.Link.Outls.{fields, opcode, get_data}
use l2go.Link.Outls
use l2go.Link.Ings.{Message, parse}
use l2go.Link.Agree.{Fits, expected_of}
use l2go.Link.Agree.Reads.{left}
use l2go.Link.Agree.Parses.{
  player_logout-parses, player_auth_request-parses, player_tracert-parses, reply_characters-parses,
}
use l2go.Link.Agree.Auth.{auth_request-parses}

pub get_data-eq :
    (p : Outls.Packet) (rest : List ℕ) → get_data p ++ rest ≡ opcode p ∷ left (fields p) rest
unfolding get_data fields_bytes field_bytes left
get_data-eq p rest = ap (λ w. w ++ rest) (write_fields-eq new_writer (byte (opcode p) ∷ fields p))

pub parse-left :
    (auth : Bool) (p : Outls.Packet) (rest : List ℕ)
    → Fits p
    → parse auth (opcode p) (left (fields p) rest) ≡ expected_of auth p
unfolding parse fields
parse-left auth (Outls.auth_request ar) rest h = rw (auth_request-parses ar rest h) refl
parse-left auth (Outls.player_in_game players) rest h = refl
parse-left auth (Outls.player_logout account) rest h = rw (player_logout-parses account rest h) refl
parse-left auth (Outls.player_auth_request account key) rest h =
    rw (player_auth_request-parses account key rest h) refl
parse-left auth (Outls.server_status ss) rest h = refl
parse-left auth (Outls.player_tracert account pc_ip hop1 hop2 hop3 hop4) rest h =
    rw (player_tracert-parses account pc_ip hop1 hop2 hop3 hop4 rest h) refl
parse-left auth (Outls.reply_characters account char_count chars_in_del) rest h =
    rw (reply_characters-parses account char_count chars_in_del rest h) refl
parse-left auth (Outls.change_password account character old new) rest h = refl

-- The opcode, and what follows it with the padding of its frame.
abbrev pub parse_whole : Bool → List ℕ → Option Message
parse_whole auth [] = none
parse_whole auth (op ∷ rest) = parse auth op rest

-- Whatever padding follows, the login server takes every packet of an authenticated game server for
-- what it is, with the values it was made of; an integer goes by the bits that its field has, a subnet
-- without a host comes with the empty one, and a change of password is refused. Of a game server that
-- is not authenticated it takes an AuthRequest only.
pub parse-get_data :
    (auth : Bool) (p : Outls.Packet) (rest : List ℕ)
    → Fits p
    → parse_whole auth (get_data p ++ rest) ≡ expected_of auth p
parse-get_data auth p rest h = ap (parse_whole auth) (get_data-eq p rest) ∙ parse-left auth p rest h
