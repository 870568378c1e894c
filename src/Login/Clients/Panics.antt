-- ===== src/Login/Clients/Panics.antt =====
-- When the login server panics.
use l2go.Prelude.{
  ℕ, ◌≡◌, refl, ap, ◌∙◌, Bool, true, false, not, ◌&&◌, ◌==◌, ltb, Option, none, some, List, [], ◌∷◌,
  if◌then◌else◌, string_eq, nat_eq, arith, inl, inr, Option-cases, Bool-cases,
}
use l2go.Prelude.Dict.{Dict, lookup, insert, lookup-insert}
use l2go.Prelude.Nested.{is_some, contains}
use l2go.Login.Keys.{SessionKey, Random}
use l2go.Login.Clients.Accounts.{
  Bcrypt, Account, AccountRepo, AuthLogin, logged_in, refused, handle_auth_login,
}
use l2go.Login.Clients.{
  Client, Handler, data_size, new_client, add_client, handle_request_auth_login, answer_login,
  sign_in, register_account, close_socket, closed, kick, signed_in, other_than, answer_server_login,
  server_login_of, handle_request_server_login, remove_client,
}
use l2go.Link.Exchange.{new_blow_fish_key}
use l2go.Login.Clients.Runs.{
  Event, connects, reads_header, asks_login, asks_server, disconnects, key_packet, validates_player,
  consumes_key, player_logout, cleans_up, is_panics, new_handler, apply, after, closing,
}

-- Whether a connection that was made, among these or later, sends a header that says a size of 0 or 1,
-- or a login request that is not read (one that is too short, is not decrypted, or whose name or
-- password is not plausible), or a game server sends a packet of the key whose parser panics.
pub has_panic : List ℕ → List Event → Bool
has_panic made [] = false
has_panic made (connects c session_id ∷ es) = has_panic (c ∷ made) es
has_panic made (reads_header c b0 b1 ∷ es) =
    let rest = has_panic made es in if contains made c && b1 == 0 && ltb b0 2 then true else rest
has_panic made (asks_login c none faults salt ∷ es) =
    let rest = has_panic made es in if contains made c then true else rest
has_panic made (key_packet data' ∷ es) =
    let rest = has_panic made es in if is_panics (new_blow_fish_key data') then true else rest
has_panic made (_ ∷ es) = has_panic made es

abbrev Clients : Type 0
Clients = Dict ℕ Client

-- Both have the same connections.
abbrev Same : Clients → Clients → Type 0
Same m m' = (d : ℕ) → is_some (lookup d m') ≡ is_some (lookup d m)

insert-Same :
    (c : ℕ) (client client' : Client) (m : Clients)
    → lookup c m ≡ some client
    → Same m (insert c client' m)
insert-Same c client client' m there d = ground (arith, there, lookup-insert c d client' m)

close_socket-Same : (c : ℕ) (m : Clients) → Same m (close_socket c m)
unfolding close_socket
close_socket-Same c m d = elim (Option-cases (lookup c m)) [
  | inl missing ↦ ground (arith, missing)
  | inr (client, there) ↦ ground (arith, there, insert-Same c client (closed client) m there d)
]

kick-Same : (old : Option ℕ) (m : Clients) → Same m (kick old m)
kick-Same none m d = refl
kick-Same (some old) m d = close_socket-Same old m d

answer_login-Same :
    (h : Handler) (c : ℕ) (client : Client) (login : AuthLogin)
    → lookup c h.clients ≡ some client
    → Same h.clients (answer_login h c client login).0.clients
unfolding answer_login sign_in register_account
answer_login-Same h c client (refused e) there d = refl
answer_login-Same h c client (logged_in account) there d =
    let old = other_than c (lookup account.username h.accounts) in
    let signed = signed_in client account in
    kick-Same old (insert c signed h.clients) d ∙ insert-Same c client signed h.clients there d

remove_client-Same : (h : Handler) (c : ℕ) → Same h.clients (remove_client h c).clients
unfolding remove_client
remove_client-Same h c d = elim (Option-cases (lookup c h.clients)) [
  | inl missing ↦ ground (arith, missing)
  | inr (client, there) ↦
      let gone = record client { listed = false; is_open = false } in
      ground (arith, there, insert-Same c client gone h.clients there d)
]

answer_server_login-Same :
    (h : Handler) (c : ℕ) (client : Client) (account : Account) (server_id : ℕ)
    (key : Option SessionKey) (update_fails : Bool)
    → lookup c h.clients ≡ some client
    → Same h.clients
        (closing c (answer_server_login h c client account server_id key update_fails)).clients
unfolding answer_server_login
answer_server_login-Same h c client account server_id none update_fails there =
    remove_client-Same h c
answer_server_login-Same h c client account server_id (some key) update_fails there =
    insert-Same c client _ h.clients there

server_login-Same :
    (h : Handler) (c : ℕ) (client : Client) (account : Option Account) (server_id now : ℕ)
    (r1 r2 : Random) (update_fails : Bool)
    → lookup c h.clients ≡ some client
    → Same h.clients
        (closing c (server_login_of h c client account server_id now r1 r2 update_fails)).clients
unfolding server_login_of
server_login-Same h c client none server_id now r1 r2 update_fails there = λ d. refl
server_login-Same h c client (some account) server_id now r1 r2 update_fails there =
    answer_server_login-Same _ c client account server_id _ update_fails there

abbrev Tracks : List ℕ → Handler → Type 0
Tracks made h = (d : ℕ) → is_some (lookup d h.clients) ≡ contains made d

Same-Tracks :
    (made : List ℕ) (h h' : Handler) → Same h.clients h'.clients → Tracks made h → Tracks made h'
Same-Tracks made h h' same tracks d = same d ∙ tracks d

add_client-Tracks :
    (made : List ℕ) (h : Handler) (c : ℕ) (session_id : List ℕ)
    → Tracks made h
    → Tracks (c ∷ made) (add_client h c session_id)
unfolding add_client contains
add_client-Tracks made h c session_id tracks d = elim (Option-cases (lookup c h.clients)) [
  | inl missing ↦
      ground (arith, missing, tracks d, lookup-insert c d (new_client session_id) h.clients)
  | inr (client, there) ↦ ground (arith, there, tracks d, tracks c)
]

data_size-panics : (b0 b1 : ℕ) → is_some (data_size b0 b1) ≡ not (b1 == 0 && ltb b0 2)
unfolding data_size
data_size-panics b0 b1 = ground arith

module _ (bc : Bcrypt) where
  header-panics :
      (c b0 b1 : ℕ) (made : List ℕ) (h : Handler) (es : List Event)
      → is_some (lookup c h.clients) ≡ true
      → is_some (lookup c h.clients) ≡ contains made c
      → is_some (after bc h es) ≡ not (has_panic made es)
      → is_some
          (elim (elim (data_size b0 b1) as (λ _. Option Handler) [
            | none ↦ none
            | some size ↦ some h
          ]) [ none ↦ none | some h' ↦ after bc h' es ])
        ≡ not (has_panic made (reads_header c b0 b1 ∷ es))
  unfolding has_panic
  header-panics c b0 b1 made h es there tracked rest = elim (Option-cases (data_size b0 b1)) [
    | inl panicked ↦
        rw (panicked, is_some)
          (ground (arith, there, tracked, ap is_some panicked, data_size-panics b0 b1))
    | inr (size, allocated) ↦
        rw (allocated, is_some)
          (ground (arith, there, tracked, rest, ap is_some allocated, data_size-panics b0 b1))
  ]

  after-panics_from :
      (made : List ℕ) (h : Handler) (es : List Event)
      → Tracks made h
      → is_some (after bc h es) ≡ not (has_panic made es)
  unfolding after apply has_panic handle_request_auth_login handle_request_server_login
  after-panics_from made h [] tracks = refl
  after-panics_from made h (connects c session_id ∷ es) tracks =
      after-panics_from (c ∷ made) _ es (add_client-Tracks made h c session_id tracks)
  after-panics_from made h (reads_header c b0 b1 ∷ es) tracks =
      elim (Option-cases (lookup c h.clients)) [
        | inl missing ↦
            rw (missing, is_some)
              (ground (arith, ap is_some missing, tracks c, after-panics_from made h es tracks))
        | inr (client, there) ↦
            rw (there, is_some)
              (header-panics c b0 b1 made h es (ap is_some there) (tracks c)
                (after-panics_from made h es tracks))
      ]
  after-panics_from made h (asks_login c none faults salt ∷ es) tracks =
      elim (Option-cases (lookup c h.clients)) [
        | inl missing ↦
            rw (missing, is_some)
              (ground (arith, ap is_some missing, tracks c, after-panics_from made h es tracks))
        | inr (client, there) ↦ rw (there, is_some) (ground (arith, ap is_some there, tracks c))
      ]
  after-panics_from made h (asks_login c (some (username, password)) faults salt ∷ es) tracks =
      elim (Option-cases (lookup c h.clients)) [
        | inl missing ↦ rw (missing, is_some) (after-panics_from made h es tracks)
        | inr (client, there) ↦
            let (login, repo) =
              handle_auth_login bc h.auto_create h.repo faults salt username password in
            let h0 = record h { repo = repo } in
            let h' = (answer_login h0 c client login).0 in
            rw (there, is_some)
              (after-panics_from made h' es
                (Same-Tracks made h h' (answer_login-Same h0 c client login there) tracks))
      ]
  after-panics_from made h (asks_server c server_id now r1 r2 update_fails ∷ es) tracks =
      elim (Option-cases (lookup c h.clients)) [
        | inl missing ↦ rw (missing, is_some) (after-panics_from made h es tracks)
        | inr (client, there) ↦
            let h' =
              closing c
                (server_login_of h c client client.account server_id now r1 r2 update_fails) in
            rw (there, is_some)
              (after-panics_from made h' es (
                Same-Tracks made h h'
                  (server_login-Same h c client client.account server_id now r1 r2 update_fails
                    there)
                  tracks))
      ]
  after-panics_from made h (disconnects c ∷ es) tracks =
      let h' = remove_client h c in
      after-panics_from made h' es (Same-Tracks made h h' (remove_client-Same h c) tracks)
  after-panics_from made h (key_packet data' ∷ es) tracks =
      elim (Bool-cases (is_panics (new_blow_fish_key data'))) [
        | inl panicked ↦ rw (panicked, is_some) (ground (arith, panicked))
        | inr fine ↦ rw (fine, is_some) (ground (arith, fine, after-panics_from made h es tracks))
      ]
  after-panics_from made h (validates_player gs now account requested ∷ es) tracks =
      after-panics_from made _ es tracks
  after-panics_from made h (consumes_key gs ∷ es) tracks = after-panics_from made _ es tracks
  after-panics_from made h (player_logout account ∷ es) tracks = after-panics_from made _ es tracks
  after-panics_from made h (cleans_up now ∷ es) tracks = after-panics_from made _ es tracks

  -- Without a connection to begin with, in any sequence of connections that begin and end, headers that
  -- they read, login requests and server logins, and of game servers' packets of the key, steps of
  -- requests for players and logouts, and clean-ups, the login server panics exactly when some
  -- connection, once made, reads a header that says a size of 0 or 1 or sends a login request that is
  -- not read, or a packet of the key makes its parser panic.
  pub after-panics :
      (auto_create : Bool) (max_age : ℕ) (repo : AccountRepo) (es : List Event)
      → is_some (after bc (new_handler auto_create max_age repo) es) ≡ not (has_panic [] es)
  unfolding new_handler contains lookup
  after-panics auto_create max_age repo es =
      after-panics_from [] (new_handler auto_create max_age repo) es (λ d. refl)
