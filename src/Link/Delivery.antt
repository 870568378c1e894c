-- ===== src/Link/Delivery.antt =====
-- A packet of the game server, from the call that makes it to the handler of the login server.
use l2go.Prelude.{
  ℕ, zero, suc, ◌<◌, ◌≡◌, sym, ap, ◌∙◌, Bool, Option, none, some, List, [], ◌∷◌, ◌++◌, All, arith,
  length, replicate, map, if◌then◌else◌,
}
use mathlib.Core.List.{append-nil}
use l2go.Packet.{le_bytes}
use l2go.Packet.Utf16.{encode}
use l2go.Packet.Units.{units_bytes}
use l2go.Packet.Fields.{Field, byte, half, dword, qword, double, blob, text}
use l2go.Packet.RoundTrip.{field_bytes, fields_bytes}
use l2go.Crypt.Blocks.{BlockCipher}
use l2go.Link.Outls.{
  Packet, fields, opcode, get_data, host_fields, auth_request_fields, server_status_fields,
  player_auth_request_fields, reply_characters_fields,
}
use l2go.Link.Outls
use l2go.Link.Ings.{Message, parse}
use l2go.Link.Agree.{Fits, expected_of}
use l2go.Link.Agree.Reads.{left}
use l2go.Link.Agree.Laws.{get_data-eq, parse-left}
use l2go.Link.Frame.{Socket, Received, login_server_connection_send, game_server_receive}
use l2go.Link.Frame.Wire.{game_end, login_end, IsKey, game_end_sends}
use l2go.Link.Frame.Laws.{login_end_receives}

abbrev Bytes : List ℕ → Type 0
Bytes xs = All (λ x. x < 256) xs

Bytes-append : (xs ys : List ℕ) → Bytes xs → Bytes ys → Bytes (xs ++ ys)
Bytes-append [] ys h k = k
Bytes-append (x ∷ xs) ys h k = (h.0, Bytes-append xs ys h.1 k)

Bytes-le_bytes : (n v : ℕ) → Bytes (le_bytes n v)
unfolding le_bytes
Bytes-le_bytes zero v = tt
Bytes-le_bytes (suc n) v = (omega arith, Bytes-le_bytes n _)

Bytes-units : (us : List ℕ) → Bytes (units_bytes us)
unfolding units_bytes
Bytes-units [] = tt
Bytes-units (u ∷ us) =
    Bytes-append (le_bytes 2 u) (units_bytes us) (Bytes-le_bytes 2 u) (Bytes-units us)

-- The fields that are bytes as they stand.
abbrev InBytes : Field → Type 0
InBytes (byte v) = v < 256
InBytes (half v) = Unit
InBytes (dword v) = Unit
InBytes (qword v) = Unit
InBytes (double v) = Unit
InBytes (blob bs) = Bytes bs
InBytes (text s) = Unit

Bytes-field : (x : Field) → InBytes x → Bytes (field_bytes x)
unfolding field_bytes
Bytes-field (byte v) h = (h, tt)
Bytes-field (half v) h = Bytes-le_bytes 2 v
Bytes-field (dword v) h = Bytes-le_bytes 4 v
Bytes-field (qword v) h = Bytes-le_bytes 8 v
Bytes-field (double v) h = Bytes-le_bytes 8 v
Bytes-field (blob bs) h = h
Bytes-field (text s) h =
    Bytes-append (units_bytes (encode s)) (le_bytes 2 0) (Bytes-units _) (Bytes-le_bytes 2 0)

Bytes-fields : (xs : List Field) → All InBytes xs → Bytes (fields_bytes xs)
unfolding fields_bytes
Bytes-fields [] h = tt
Bytes-fields (x ∷ xs) h =
    Bytes-append (field_bytes x) (fields_bytes xs) (Bytes-field x h.0) (Bytes-fields xs h.1)

All-hosts : (subnets hosts : List (List ℕ)) → All InBytes (host_fields subnets hosts)
unfolding host_fields
All-hosts [] hosts = tt
All-hosts (s ∷ subnets) [] = (tt, (tt, All-hosts subnets []))
All-hosts (s ∷ subnets) (h ∷ hosts) = (tt, (tt, All-hosts subnets hosts))

All-texts : (ss : List (List ℕ)) → All InBytes (map text ss)
All-texts [] = tt
All-texts (s ∷ ss) = (tt, All-texts ss)

All-zeros : (n : ℕ) → All InBytes (replicate n (qword 0))
All-zeros zero = tt
All-zeros (suc n) = (tt, All-zeros n)

-- A hex id is bytes.
abbrev pub InBytesOf : Packet → Type 0
InBytesOf (Outls.auth_request ar) = Bytes ar.hex_id
InBytesOf p = Unit

small_flag : (b : Bool) → (if b then 1 else 0) < 256
small_flag b = ground arith

All-fields : (p : Packet) → InBytesOf p → All InBytes (fields p)
unfolding fields auth_request_fields server_status_fields player_auth_request_fields
    reply_characters_fields
All-fields (Outls.auth_request ar) h = (
  omega arith,
  (
    omega arith,
    (
      small_flag ar.accept_alternate_id,
      (small_flag ar.reserve_host, (tt, (tt, (tt, (h, (tt, All-hosts ar.subnets ar.hosts)))))),
    ),
  ),
)
All-fields (Outls.player_in_game players) h = (tt, All-texts players)
All-fields (Outls.player_logout account) h = (tt, tt)
All-fields (Outls.player_auth_request account key) h = (tt, (tt, (tt, (tt, (tt, tt)))))
All-fields (Outls.server_status ss) h = (
  omega arith,
  (
    tt,
    (
      tt,
      (
        tt,
        (
          tt,
          (
            tt,
            (
              tt,
              (
                tt,
                (
                  small_flag ss.show_brackets,
                  (small_flag ss.pvp, (small_flag ss.test_server, (small_flag ss.show_clock, tt))),
                ),
              ),
            ),
          ),
        ),
      ),
    ),
  ),
)
All-fields (Outls.player_tracert account pc_ip hop1 hop2 hop3 hop4) h =
    (tt, (tt, (tt, (tt, (tt, (tt, tt))))))
All-fields (Outls.reply_characters account char_count chars_in_del) h =
    (tt, (omega arith, (omega arith, All-zeros chars_in_del)))
All-fields (Outls.change_password account character old new) h = (tt, (tt, (tt, (tt, tt))))

small_opcode : (p : Packet) → opcode p < 256
small_opcode (Outls.auth_request ar) = omega arith
small_opcode (Outls.player_in_game players) = omega arith
small_opcode (Outls.player_logout account) = omega arith
small_opcode (Outls.player_auth_request account key) = omega arith
small_opcode (Outls.server_status ss) = omega arith
small_opcode (Outls.player_tracert account pc_ip hop1 hop2 hop3 hop4) = omega arith
small_opcode (Outls.reply_characters account char_count chars_in_del) = omega arith
small_opcode (Outls.change_password account character old new) = omega arith

-- What the handler of the login server is given of what was received.
abbrev pub handled : Bool → Option Received → Option Message
handled auth none = none
handled auth (some (op, rest, s)) = parse auth op rest

parse_more :
    (auth : Bool) (p : Packet) (rest : List ℕ)
    → Fits p
    → parse auth (opcode p) (left (fields p) [] ++ rest) ≡ expected_of auth p
unfolding left
parse_more auth p rest fits =
    ap (λ w. parse auth (opcode p) (w ++ rest)) (append-nil (fields_bytes (fields p)))
    ∙ parse-left auth p rest fits

-- Before and after the exchange of keys, a packet that a game server makes and sends is received by
-- the login server, and taken for what it is, with the values it was made of, once the game server is
-- authenticated, if the values fit the packet, the packet fits a frame, and the frame arrives in one
-- portion. Until it is, an AuthRequest is taken so and every other packet is refused; a change of
-- password always is.
pub game_server_receive-login_server_connection_send :
    (b : BlockCipher) (k : Option (List ℕ)) (auth : Bool) (p : Packet) (more : List ℕ) (cs : Socket)
    → IsKey k
    → Fits p
    → InBytesOf p
    → length (get_data p) < 65522
    → (wire : List ℕ) × (login_server_connection_send b (game_end k) (get_data p) ≡ some wire)
      × (handled auth (game_server_receive b (login_end k) ((wire ++ more) ∷ cs))
          ≡ expected_of auth p)
game_server_receive-login_server_connection_send b k auth p more cs ik fits bytes short =
    let body = left (fields p) [] in
    let whole : get_data p ≡ opcode p ∷ body = sym (append-nil (get_data p)) ∙ get_data-eq p [] in
    let in_bytes : Bytes (opcode p ∷ body) = (
      small_opcode p,
      unfold left in Bytes-append _ [] (Bytes-fields (fields p) (All-fields p bytes)) tt,
    ) in
    let (wire, sent, w) =
      game_end_sends b k (opcode p ∷ body) ik (omega arith) (omega (arith, ap length whole))
        in_bytes in
    let (padding, s', received, after) = login_end_receives b k (opcode p) body wire more cs w in
    (
      wire,
      ap (login_server_connection_send b (game_end k)) whole ∙ sent,
      ap (handled auth) received ∙ parse_more auth p padding fits,
    )
