-- ===== src/Login/Clients/Runs.antt =====
-- What happens to the login server, one event at a time: connections that begin and end, the headers
-- that they read, their login and server login requests; of game servers, the packet of the key, the
-- two steps of a request for a player (Keys.Requests) and a logout; and the clean-up. A header or a
-- packet is one that was read, which no closed connection gives; a handler goes on with a packet that
-- it has read when its connection is closed meanwhile.
use l2go.Prelude.{
  ℕ, Bool, true, false, Option, none, some, List, [], ◌∷◌, if◌then◌else◌, String, string_eq, nat_eq,
}
use l2go.Prelude.Dict.{lookup}
use l2go.Login.Keys.{
  SessionKey, SessionUseCase, Random, new_session_use_case, handle_player_logout,
  cleanup_expired_sessions,
}
use l2go.Login.Keys.Requests.{Requests, validate_request, consume_key}
use l2go.Link.Exchange.{Parsed, panics, new_blow_fish_key}
use l2go.Login.Clients.Accounts.{Bcrypt, AccountRepo, Faults}
use l2go.Login.Clients.{
  Handler, Sent, data_size, add_client, handle_request_auth_login, handle_request_server_login,
  remove_client,
}

pub data Event : Type 0 where
  connects : ℕ → List ℕ → Event
  reads_header : ℕ → ℕ → ℕ → Event
  asks_login : ℕ → Option (String × String) → Faults → ℕ → Event
  asks_server : ℕ → ℕ → ℕ → Random → Random → Bool → Event
  disconnects : ℕ → Event
  key_packet : List ℕ → Event
  validates_player : ℕ → ℕ → String → SessionKey → Event
  consumes_key : ℕ → Event
  player_logout : String → Event
  cleans_up : ℕ → Event

unfoldable pub new_handler : Bool → ℕ → AccountRepo → Handler
new_handler auto_create max_age repo = record {
  repo = repo;
  session_use_case = new_session_use_case max_age;
  auto_create = auto_create;
  clients = [];
  accounts = [];
  to_remove = λ gs. none;
}

-- An error of the handler ends the connection.
abbrev pub closing : ℕ → Handler × Sent × Bool → Handler
closing c (h, sent, error) = if error then remove_client h c else h

abbrev pub first {ℓ κ} : {A : Type ℓ} {B : Type κ} → Option (A × B) → Option A
first none = none
first (some (a, b)) = some a

abbrev pub with_keys : Handler → SessionUseCase → Handler
with_keys h uc = record h { session_use_case = uc }

abbrev pub requests_of : Handler → Requests
requests_of h = record { session_use_case = h.session_use_case; to_remove = h.to_remove }

abbrev pub with_requests : Handler → Requests → Handler
with_requests h s = record h { session_use_case = s.session_use_case; to_remove = s.to_remove }

-- Whether the parser of the packet of the key panics.
abbrev pub is_panics : Parsed → Bool
is_panics panics = true
is_panics _ = false

module _ (bc : Bcrypt) where
  -- `none` when the process has panicked.
  unfoldable pub apply : Handler → Event → Option Handler
  apply h (connects c session_id) = some (add_client h c session_id)
  apply h (reads_header c b0 b1) = elim (lookup c h.clients) [
    | none ↦ some h
    | some client ↦ elim (data_size b0 b1) [ none ↦ none | some size ↦ some h ]
  ]
  apply h (asks_login c credentials faults salt) = elim (lookup c h.clients) [
    | none ↦ some h
    | some client ↦ first (handle_request_auth_login bc h c client credentials faults salt)
  ]
  apply h (asks_server c server_id now r1 r2 update_fails) = elim (lookup c h.clients) [
    | none ↦ some h
    | some client ↦
        some (closing c (handle_request_server_login h c client server_id now r1 r2 update_fails))
  ]
  apply h (disconnects c) = some (remove_client h c)
  apply h (key_packet data') = if is_panics (new_blow_fish_key data') then none else some h
  apply h (validates_player gs now account requested) =
      some (with_requests h (validate_request (requests_of h) gs now account requested).1)
  apply h (consumes_key gs) = some (with_requests h (consume_key (requests_of h) gs))
  apply h (player_logout account) =
      some (with_keys h (handle_player_logout h.session_use_case account))
  apply h (cleans_up now) = some (with_keys h (cleanup_expired_sessions h.session_use_case now).1)

  unfoldable pub after : Handler → List Event → Option Handler
  after h [] = some h
  after h (e ∷ es) = elim (apply h e) [ none ↦ none | some h' ↦ after h' es ]
