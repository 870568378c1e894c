-- ===== src/Login/Clients/Entry.antt =====
-- From a login to a game server: how often a user is let in.
use l2go.Prelude.{
  ℕ, ◌+◌, ◌*◌, ◌<◌, ◌≤◌, ◌≡◌, refl, ap, Bool, true, false, ◌&&◌, Option, none, some, List, [], ◌∷◌,
  All, String, string_eq, nat_eq, arith, inl, inr, Option-cases, Bool-cases,
}
use l2go.Prelude.Dict.{lookup}
use l2go.Prelude.Nested.{is_some}
use l2go.Login.Keys.{SessionKey, Random, create_session_key}
use l2go.Login.Keys.Requests.{new_requests, validate_request}
use l2go.Login.Keys.Runs.{
  creates, validates, consumes, logs_out, bit, chances, step-chances, empty, makes, admits, step,
}
use l2go.Link.Exchange.{new_blow_fish_key}
use l2go.Login.Keys.Runs
use l2go.Login.Clients.Accounts.{
  Bcrypt, Account, AccountRepo, Faults, AuthLogin, logged_in, refused, handle_auth_login,
}
use l2go.Login.Clients.{
  Client, Handler, data_size, play_ok, Sent, add_client, handle_request_auth_login, answer_login,
  sign_in, answer_server_login, server_login_of, handle_request_server_login, remove_client,
}
use l2go.Login.Clients.Runs.{
  Event, connects, reads_header, asks_login, asks_server, disconnects, key_packet, validates_player,
  consumes_key, player_logout, cleans_up, is_panics, new_handler, apply, closing, with_keys,
  requests_of, first,
}

-- The user that a client last signed in as, open or not.
abbrev pub signed_in_as : Option Client → String → Bool
signed_in_as none a = false
signed_in_as (some client) a = elim client.account [
  | none ↦ false
  | some account ↦ string_eq.beq account.username a
]

abbrev pub is_play_ok : Handler × Sent × Bool → Bool
is_play_ok (h, (c, play_ok k1 k2) ∷ sent, error) = true
is_play_ok (h, sent, error) = false

-- Whether an event sends a client that is signed in as the user on to a game server.
pub sends_on : Handler → Event → String → Bool
sends_on h (asks_server c server_id now r1 r2 update_fails) a = elim (lookup c h.clients) [
  | none ↦ false
  | some client ↦
      signed_in_as (some client) a
      && is_play_ok (handle_request_server_login h c client server_id now r1 r2 update_fails)
]
sends_on h _ a = false

-- Whether an event lets the user into a game server.
pub lets_in : Handler → Event → String → Bool
lets_in h (validates_player gs now account requested) a =
    string_eq.beq account a && (validate_request (requests_of h) gs now account requested).0
lets_in h _ a = false

-- The connections of game servers are the numbers below n.
abbrev pub IsAmong : ℕ → Event → Type 0
IsAmong n (validates_player gs now account requested) = gs < n
IsAmong n (consumes_key gs) = gs < n
IsAmong n _ = Unit

remove_client-keys : (h : Handler) (c : ℕ) → requests_of (remove_client h c) ≡ requests_of h
unfolding remove_client
remove_client-keys h c = elim (Option-cases (lookup c h.clients)) [
  | inl missing ↦ ground (arith, missing)
  | inr (client, there) ↦ ground (arith, there)
]

answer_server_login-keys :
    (h : Handler) (c : ℕ) (client : Client) (account : Account) (server_id : ℕ)
    (key : Option SessionKey) (update_fails : Bool)
    → let outcome = answer_server_login h c client account server_id key update_fails in
      (requests_of (closing c outcome) ≡ requests_of h) × (is_play_ok outcome ≡ is_some key)
unfolding answer_server_login
answer_server_login-keys h c client account server_id none update_fails =
    (remove_client-keys h c, refl)
answer_server_login-keys h c client account server_id (some key) update_fails = (refl, refl)

server_login-chances :
    (n : ℕ) (h : Handler) (c : ℕ) (client : Client) (account : Option Account) (server_id now : ℕ)
    (r1 r2 : Random) (update_fails : Bool) (a : String)
    → client.account ≡ account
    → let outcome = server_login_of h c client account server_id now r1 r2 update_fails in
      chances n (requests_of (closing c outcome)) a
      ≤ n * bit (signed_in_as (some client) a && is_play_ok outcome) + chances n (requests_of h) a
unfolding server_login_of makes admits step
server_login-chances n h c client none server_id now r1 r2 update_fails a held = omega arith
server_login-chances n h c client (some account) server_id now r1 r2 update_fails a held =
    let l1 = client.login_ok_id1 in
    let l2 = client.login_ok_id2 in
    let (key, uc) =
      create_session_key h.session_use_case now account.username server_id l1 l2 r1 r2 in
    let (keys, answered) =
      answer_server_login-keys (with_keys h uc) c client account server_id key update_fails in
    let made = creates now account.username server_id l1 l2 r1 r2 in
    ground (
      arith,
      held,
      answered,
      ap (λ k. chances n k a) keys,
      step-chances n (requests_of h) made a tt,
    )

answer_login-keys :
    (h : Handler) (c : ℕ) (client : Client) (login : AuthLogin)
    → requests_of (answer_login h c client login).0 ≡ requests_of h
unfolding answer_login sign_in
answer_login-keys h c client (refused e) = refl
answer_login-keys h c client (logged_in account) = refl

add_client-keys :
    (h : Handler) (c : ℕ) (session_id : List ℕ)
    → requests_of (add_client h c session_id) ≡ requests_of h
unfolding add_client
add_client-keys h c session_id = elim (Option-cases (lookup c h.clients)) [
  | inl missing ↦ ground (arith, missing)
  | inr (client, there) ↦ ground (arith, there)
]

-- The chances in a handler that has not panicked.
abbrev chances_in : ℕ → Option Handler → String → ℕ
chances_in n none a = 0
chances_in n (some h) a = chances n (requests_of h) a

module _ (bc : Bcrypt) where
  asks_login-chances :
      (n : ℕ) (h : Handler) (c : ℕ) (client : Client) (credentials : Option (String × String))
      (faults : Faults) (salt : ℕ) (a : String)
      → chances_in n (first (handle_request_auth_login bc h c client credentials faults salt)) a
        ≤ chances n (requests_of h) a
  unfolding handle_request_auth_login
  asks_login-chances n h c client none faults salt a = omega arith
  asks_login-chances n h c client (some (username, password)) faults salt a =
      let (login, repo) = handle_auth_login bc h.auto_create h.repo faults salt username password in
      omega (
        arith,
        ap (λ k. chances n k a) (answer_login-keys (record h { repo = repo }) c client login),
      )

  -- An event spends a waiting key to let the user in.
  apply-chances :
      (n : ℕ) (h : Handler) (e : Event) (a : String)
      → IsAmong n e
      → bit (lets_in h e a) + chances_in n (apply bc h e) a
        ≤ n * bit (sends_on h e a) + chances n (requests_of h) a
  unfolding apply lets_in sends_on handle_request_server_login step makes admits
  apply-chances n h (connects c session_id) a among =
      omega (arith, ap (λ k. chances n k a) (add_client-keys h c session_id))
  apply-chances n h (reads_header c b0 b1) a among = elim (Option-cases (lookup c h.clients)) [
    | inl missing ↦ rw (missing, chances_in) (omega arith)
    | inr (client, there) ↦ elim (Option-cases (data_size b0 b1)) [
      | inl panicked ↦ rw (there, panicked, chances_in) (omega arith)
      | inr (size, allocated) ↦ rw (there, allocated, chances_in) (omega arith)
    ]
  ]
  apply-chances n h (asks_login c credentials faults salt) a among =
      elim (Option-cases (lookup c h.clients)) [
        | inl missing ↦ rw (missing, chances_in, sends_on) (omega arith)
        | inr (client, there) ↦
            rw (there, chances_in)
              (omega (arith, asks_login-chances n h c client credentials faults salt a))
      ]
  apply-chances n h (asks_server c server_id now r1 r2 update_fails) a among =
      elim (Option-cases (lookup c h.clients)) [
        | inl missing ↦ rw (missing, chances_in, sends_on) (omega arith)
        | inr (client, there) ↦
            rw (there, chances_in, sends_on)
              (omega (
                arith,
                server_login-chances n h c client client.account server_id now r1 r2 update_fails a
                    refl,
              ))
      ]
  apply-chances n h (disconnects c) a among =
      omega (arith, ap (λ k. chances n k a) (remove_client-keys h c))
  apply-chances n h (key_packet data') a among =
      elim (Bool-cases (is_panics (new_blow_fish_key data'))) [
        | inl panicked ↦ rw (panicked, chances_in) (omega arith)
        | inr fine ↦ rw (fine, chances_in) (omega arith)
      ]
  apply-chances n h (validates_player gs now account requested) a among =
      step-chances n (requests_of h) (validates gs now account requested) a among
  apply-chances n h (consumes_key gs) a among = step-chances n (requests_of h) (consumes gs) a among
  apply-chances n h (player_logout account) a among =
      step-chances n (requests_of h) (logs_out account) a tt
  apply-chances n h (cleans_up now) a among =
      step-chances n (requests_of h) (Runs.cleans_up now) a tt

  -- How often a run lets the user in, and how often it sends them on.
  pub entered : Handler → List Event → String → ℕ
  entered h [] a = 0
  entered h (e ∷ es) a = elim (apply bc h e) [
    | none ↦ bit (lets_in h e a)
    | some h' ↦ bit (lets_in h e a) + entered h' es a
  ]

  pub sent_on : Handler → List Event → String → ℕ
  sent_on h [] a = 0
  sent_on h (e ∷ es) a = elim (apply bc h e) [
    | none ↦ bit (sends_on h e a)
    | some h' ↦ bit (sends_on h e a) + sent_on h' es a
  ]

  entered-chances :
      (n : ℕ) (h : Handler) (es : List Event) (a : String)
      → All (IsAmong n) es
      → entered h es a ≤ n * sent_on h es a + chances n (requests_of h) a
  unfolding entered sent_on
  entered-chances n h [] a among = omega arith
  entered-chances n h (e ∷ es) a among = elim (Option-cases (apply bc h e)) [
    | inl crashed ↦ rw (crashed, entered, sent_on) (omega (arith, apply-chances n h e a among.0))
    | inr (h', next) ↦
        rw (next, entered, sent_on)
          (omega (
            arith,
            apply-chances n h e a among.0,
            ap (λ o. chances_in n o a) next,
            entered-chances n h' es a among.1,
          ))
  ]

  -- From a server without keys, over n connections of game servers, a user is let into game servers at
  -- most n times as often as the login server has sent a client on that was signed in as that user, so
  -- with one connection at most as often; in whatever order and at whatever times the requests of
  -- clients and game servers come, also between the validation of a key and its removal.
  pub entered-sent_on :
      (n : ℕ) (auto_create : Bool) (max_age : ℕ) (repo : AccountRepo) (es : List Event) (a : String)
      → All (IsAmong n) es
      → entered (new_handler auto_create max_age repo) es a
        ≤ n * sent_on (new_handler auto_create max_age repo) es a
  entered-sent_on n auto_create max_age repo es a among =
      let h = new_handler auto_create max_age repo in
      let none_yet : chances n (requests_of h) a ≡ 0 =
        unfold new_handler new_requests in empty n max_age a in
      omega (arith, entered-chances n h es a among, none_yet)
