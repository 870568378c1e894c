-- ===== src/Login/Clients/Sole.antt =====
-- One open client an account.
use l2go.Prelude.{
  ℕ, ◌≡◌, refl, ap, Bool, false, ◌==◌, Option, none, some, List, [], ◌∷◌, if◌then◌else◌, String,
  string_eq, nat_eq, arith, inl, inr, Option-cases, Bool-cases,
}
use mathlib.Core.Path.{subst}
use l2go.Prelude.Dict.{Dict, lookup, insert, lookup-insert, lookup-delete}
use l2go.Login.Keys.{SessionKey, Random}
use l2go.Login.Clients.Accounts.{
  Bcrypt, Account, AccountRepo, Faults, AuthLogin, logged_in, refused, handle_auth_login,
}
use l2go.Login.Clients.{
  Client, Handler, data_size, new_client, add_client, register_account, other_than, close_socket,
  closed, kick, signed_in, sign_in, answer_login, handle_request_auth_login, answer_server_login,
  server_login_of, handle_request_server_login, points_at, drop_account, remove_client,
}
use l2go.Link.Exchange.{new_blow_fish_key}
use l2go.Login.Clients.Runs.{
  Event, connects, reads_header, asks_login, asks_server, disconnects, key_packet, validates_player,
  consumes_key, player_logout, cleans_up, is_panics, new_handler, apply, after, closing, first,
}

-- The user of a client, while its socket is open.
abbrev pub user : Option Client → Option String
user none = none
user (some client) =
    if client.is_open
    then elim client.account [ none ↦ none | some account ↦ some account.username ]
    else none

abbrev pub user_of : Handler → ℕ → Option String
user_of h c = user (lookup c h.clients)

-- The client of an open connection that is signed in is the one of its account.
pub IsSole : Handler → Type 0
IsSole h = (c : ℕ) (u : String) → user_of h c ≡ some u → lookup u h.accounts ≡ some c

add_client-IsSole :
    (h : Handler) (c : ℕ) (session_id : List ℕ) → IsSole h → IsSole (add_client h c session_id)
unfolding IsSole add_client new_client
add_client-IsSole h c session_id sole d u is =
    ground (arith, sole d u, lookup-insert c d (new_client session_id) h.clients)

user-close_socket :
    (c d : ℕ) (clients : Dict ℕ Client)
    → user (lookup d (close_socket c clients)) ≡ (if c == d then none else user (lookup d clients))
unfolding close_socket
user-close_socket c d clients = elim (Option-cases (lookup c clients)) [
  | inl missing ↦ ground (arith, missing)
  | inr (client, there) ↦ ground (arith, there, lookup-insert c d (closed client) clients)
]

user-kick :
    (old : Option ℕ) (d : ℕ) (clients : Dict ℕ Client)
    → user (lookup d (kick old clients))
      ≡ (if points_at d old then none else user (lookup d clients))
user-kick none d clients = refl
user-kick (some old) d clients = user-close_socket old d clients

sign_in-IsSole :
    (h : Handler) (c : ℕ) (client : Client) (account : Account)
    → IsSole h
    → IsSole (sign_in h c client account).0
unfolding IsSole sign_in register_account signed_in
sign_in-IsSole h c client account sole d u is =
    let old = other_than c (lookup account.username h.accounts) in
    let signed = signed_in client account in
    ground (
      arith,
      is,
      user-kick old d (insert c signed h.clients),
      lookup-insert c d signed h.clients,
      lookup-insert account.username u c h.accounts,
      string_eq.beq_iff account.username u,
      sole d u,
    )

-- A client whose user stays the same.
kept-IsSole :
    (h : Handler) (c : ℕ) (client client' : Client) (h' : Handler)
    → lookup c h.clients ≡ some client
    → user (some client') ≡ user (some client)
    → h'.clients ≡ insert c client' h.clients
    → h'.accounts ≡ h.accounts
    → IsSole h
    → IsSole h'
unfolding IsSole
kept-IsSole h c client client' h' there same clients accounts sole d u is = ground (
  arith,
  ap (λ m. user (lookup d m)) clients,
  ap (lookup u) accounts,
  there,
  same,
  lookup-insert c d client' h.clients,
  sole d u,
)

-- The entry of another client stays.
lookup-drop_account :
    (accounts : Dict String ℕ) (c d : ℕ) (account : Option Account) (u : String)
    → (c == d) ≡ false
    → lookup u accounts ≡ some d
    → lookup u (drop_account accounts c account) ≡ some d
lookup-drop_account accounts c d none u apart there = there
lookup-drop_account accounts c d (some account) u apart there = ground (
  arith,
  apart,
  there,
  lookup-delete account.username u accounts,
  string_eq.beq_iff account.username u,
)

remove_client-IsSole : (h : Handler) (c : ℕ) → IsSole h → IsSole (remove_client h c)
unfolding IsSole remove_client
remove_client-IsSole h c sole d u is = elim (Option-cases (lookup c h.clients)) [
  | inl missing ↦ ground (arith, missing, sole d u)
  | inr (client, there) ↦
      let gone = record client { listed = false; is_open = false } in
      ground (
        arith,
        there,
        is,
        lookup-insert c d gone h.clients,
        sole d u,
        lookup-drop_account h.accounts c d client.account u,
      )
]

answer_login-IsSole :
    (h : Handler) (c : ℕ) (client : Client) (login : AuthLogin)
    → IsSole h
    → IsSole (answer_login h c client login).0
unfolding answer_login
answer_login-IsSole h c client (refused e) sole = sole
answer_login-IsSole h c client (logged_in account) sole = sign_in-IsSole h c client account sole

-- Only the clients and the index count.
same-IsSole :
    (h h' : Handler) → h'.clients ≡ h.clients → h'.accounts ≡ h.accounts → IsSole h → IsSole h'
unfolding IsSole
same-IsSole h h' clients accounts sole d u is =
    ground (arith, ap (λ m. user (lookup d m)) clients, ap (lookup u) accounts, is, sole d u)

answer_server_login-IsSole :
    (h : Handler) (c : ℕ) (client : Client) (account : Account) (server_id : ℕ)
    (key : Option SessionKey) (update_fails : Bool)
    → lookup c h.clients ≡ some client
    → client.account ≡ some account
    → IsSole h
    → IsSole (closing c (answer_server_login h c client account server_id key update_fails))
unfolding answer_server_login
answer_server_login-IsSole h c client account server_id none update_fails there held sole =
    remove_client-IsSole h c sole
answer_server_login-IsSole h c client account server_id (some key) update_fails there held sole =
    let account' = if update_fails then account else record account { last_server = server_id } in
    let client' = record client { account = some account'; last_server = server_id } in
    kept-IsSole h c client client' _ there (ground (arith, held)) refl refl sole

server_login-IsSole :
    (h : Handler) (c : ℕ) (client : Client) (account : Option Account) (server_id now : ℕ)
    (r1 r2 : Random) (update_fails : Bool)
    → lookup c h.clients ≡ some client
    → client.account ≡ account
    → IsSole h
    → IsSole (closing c (server_login_of h c client account server_id now r1 r2 update_fails))
unfolding server_login_of
server_login-IsSole h c client none server_id now r1 r2 update_fails there held sole = sole
server_login-IsSole h c client (some account) server_id now r1 r2 update_fails there held sole =
    answer_server_login-IsSole _ c client account server_id _ update_fails there held
      (same-IsSole h _ refl refl sole)

-- Of a handler that has not panicked.
abbrev StaysSole : Option Handler → Type 0
StaysSole none = Unit
StaysSole (some h) = IsSole h

module _ (bc : Bcrypt) where
  asks_login-StaysSole :
      (h : Handler) (c : ℕ) (client : Client) (credentials : Option (String × String))
      (faults : Faults) (salt : ℕ)
      → IsSole h
      → StaysSole (first (handle_request_auth_login bc h c client credentials faults salt))
  unfolding handle_request_auth_login
  asks_login-StaysSole h c client none faults salt sole = tt
  asks_login-StaysSole h c client (some (username, password)) faults salt sole =
      answer_login-IsSole _ c client
        (handle_auth_login bc h.auto_create h.repo faults salt username password).0
        (same-IsSole h _ refl refl sole)

  apply-StaysSole : (h : Handler) (e : Event) → IsSole h → StaysSole (apply bc h e)
  unfolding apply handle_request_server_login
  apply-StaysSole h (connects c session_id) sole = add_client-IsSole h c session_id sole
  apply-StaysSole h (reads_header c b0 b1) sole = elim (Option-cases (lookup c h.clients)) [
    | inl missing ↦ rw (missing, StaysSole) sole
    | inr (client, there) ↦ elim (Option-cases (data_size b0 b1)) [
      | inl panicked ↦ rw (there, panicked, StaysSole) tt
      | inr (size, allocated) ↦ rw (there, allocated, StaysSole) sole
    ]
  ]
  apply-StaysSole h (asks_login c credentials faults salt) sole =
      elim (Option-cases (lookup c h.clients)) [
        | inl missing ↦ rw (missing, StaysSole) sole
        | inr (client, there) ↦
            rw (there, StaysSole) (asks_login-StaysSole h c client credentials faults salt sole)
      ]
  apply-StaysSole h (asks_server c server_id now r1 r2 update_fails) sole =
      elim (Option-cases (lookup c h.clients)) [
        | inl missing ↦ rw (missing, StaysSole) sole
        | inr (client, there) ↦
            rw (there, StaysSole)
              (server_login-IsSole h c client client.account server_id now r1 r2 update_fails there
                refl sole)
      ]
  apply-StaysSole h (disconnects c) sole = remove_client-IsSole h c sole
  apply-StaysSole h (key_packet data') sole =
      elim (Bool-cases (is_panics (new_blow_fish_key data'))) [
        | inl panicked ↦ rw (panicked, StaysSole) tt
        | inr fine ↦ rw (fine, StaysSole) sole
      ]
  apply-StaysSole h (validates_player gs now account requested) sole =
      same-IsSole h _ refl refl sole
  apply-StaysSole h (consumes_key gs) sole = same-IsSole h _ refl refl sole
  apply-StaysSole h (player_logout account) sole = same-IsSole h _ refl refl sole
  apply-StaysSole h (cleans_up now) sole = same-IsSole h _ refl refl sole

  after-StaysSole : (h : Handler) (es : List Event) → IsSole h → StaysSole (after bc h es)
  unfolding after
  after-StaysSole h [] sole = sole
  after-StaysSole h (e ∷ es) sole = elim (Option-cases (apply bc h e)) [
    | inl crashed ↦ rw (crashed, StaysSole) tt
    | inr (h', next) ↦
        rw (next, StaysSole)
          (after-StaysSole h' es (subst StaysSole next (apply-StaysSole h e sole)))
  ]

  new_handler-IsSole :
      (auto_create : Bool) (max_age : ℕ) (repo : AccountRepo)
      → IsSole (new_handler auto_create max_age repo)
  unfolding IsSole new_handler lookup
  new_handler-IsSole auto_create max_age repo c u is = cc

  -- Whatever happens, in whatever order, two open connections are never signed in as the same user,
  -- as long as the server has not panicked: a login closes the connection that has the account, and
  -- the late end of a connection does not take the account from a newer one.
  pub after-sole :
      (auto_create : Bool) (max_age : ℕ) (repo : AccountRepo) (es : List Event) (h : Handler)
      (c d : ℕ) (u : String)
      → after bc (new_handler auto_create max_age repo) es ≡ some h
      → user_of h c ≡ some u
      → user_of h d ≡ some u
      → c ≡ d
  unfolding IsSole
  after-sole auto_create max_age repo es h c d u run is_c is_d =
      let sole : IsSole h =
        subst StaysSole run (after-StaysSole _ es (new_handler-IsSole auto_create max_age repo)) in
      cc (sole c u is_c, sole d u is_d)
