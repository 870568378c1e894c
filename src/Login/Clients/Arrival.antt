-- ===== src/Login/Clients/Arrival.antt =====
-- The way of a player from the login to a game server.
use l2go.Prelude.{
  ℕ, ◌+◌, ◌≤◌, ◌≡◌, refl, ap, Bool, true, false, Option, none, some, List, [], ◌∷◌, ◌++◌, String,
  string_eq, nat_eq, arith, inl, inr, Option-cases, take, drop,
}
use l2go.Prelude.Dict.{Dict, lookup, insert, lookup-insert}
use l2go.Packet.{le_value}
use l2go.Login.Keys.{
  SessionKey, SessionUseCase, Random, generate_random_uint32, create_session_key, equals,
  handle_player_auth_request,
}
use l2go.Login.Keys.Laws.{handle_player_auth_request-create_session_key}
use l2go.Login.Clients.Accounts.{Bcrypt, Account, AccountRepo, Faults, logged_in, handle_auth_login}
use l2go.Login.Clients.{
  Client, Handler, login_ok, play_ok, other_than, close_socket, closed, kick, account_in_use,
  signed_in, sign_in, register_account, answer_login, handle_request_auth_login,
  answer_server_login, server_login_of, handle_request_server_login,
}

-- The kicked client is another one.
lookup-kick_other :
    (c : ℕ) (client : Client) (clients : Dict ℕ Client) (holder : Option ℕ)
    → lookup c clients ≡ some client
    → lookup c (kick (other_than c holder) clients) ≡ some client
unfolding close_socket
lookup-kick_other c client clients none there = there
lookup-kick_other c client clients (some old) there = elim (Option-cases (lookup old clients)) [
  | inl missing ↦ ground (arith, there, missing)
  | inr (other, held) ↦ ground (arith, there, held, lookup-insert old c (closed other) clients)
]

made_key :
    (uc : SessionUseCase) (now : ℕ) (account : String) (server_id l1 l2 : ℕ) (r1 r2 : Random)
    (p1 p2 : ℕ)
    → generate_random_uint32 r1 ≡ some p1
    → generate_random_uint32 r2 ≡ some p2
    → (create_session_key uc now account server_id l1 l2 r1 r2).0
      ≡ some (record {
        login_key1 = l1;
        login_key2 = l2;
        play_key1 = p1;
        play_key2 = p2;
        account = account;
        server_id = server_id;
        created_at = now;
      })
unfolding create_session_key
made_key uc now account server_id l1 l2 r1 r2 p1 p2 e1 e2 = rw (e1, e2) refl

-- What a game server asks with, of a client that shows its session and the two numbers it was sent.
pub shown_key : List ℕ → ℕ → ℕ → String → SessionKey
shown_key session_id p1 p2 account = record {
  login_key1 = le_value (take 4 session_id);
  login_key2 = le_value (take 4 (drop 4 session_id));
  play_key1 = p1;
  play_key2 = p2;
  account = account;
  server_id = 0;
  created_at = 0;
}

-- The server login of a client that has signed in, and the request of the game server after it.
server_login-granted :
    (h : Handler) (c : ℕ) (client : Client) (account : Account) (server_id now later : ℕ)
    (r1 r2 : Random) (p1 p2 : ℕ) (update_fails : Bool)
    → generate_random_uint32 r1 ≡ some p1
    → generate_random_uint32 r2 ≡ some p2
    → later ≤ now + h.session_use_case.max_session_age
    → (h2 : Handler) × (handle_request_server_login h c
          (signed_in client account)
          server_id
          now
          r1
          r2
          update_fails
        ≡ (h2, (c, play_ok p1 p2) ∷ [], false))
      × ((handle_player_auth_request h2.session_use_case later account.username
            (shown_key client.session_id p1 p2 account.username)).0
          ≡ true)
unfolding handle_request_server_login server_login_of answer_server_login signed_in shown_key
server_login-granted h c client account server_id now later r1 r2 p1 p2 update_fails e1 e2 time =
    let uc = h.session_use_case in
    let l1 = le_value (take 4 client.session_id) in
    let l2 = le_value (take 4 (drop 4 client.session_id)) in
    let made = made_key uc now account.username server_id l1 l2 r1 r2 p1 p2 e1 e2 in
    let granted =
      handle_player_auth_request-create_session_key uc now later account.username server_id l1 l2 r1
        r2 _ (shown_key client.session_id p1 p2 account.username) made time
        (unfold equals shown_key in ground arith) in
    let uc' = (create_session_key uc now account.username server_id l1 l2 r1 r2).1 in
    let answer =
      ap
        (λ key.
          answer_server_login (record h { session_use_case = uc' }) c (signed_in client account)
            account server_id key update_fails)
        made in
    (_, answer, granted)

module _ (bc : Bcrypt) where
  -- A client whose login is granted is told its session, and is then sent on to the game server it
  -- asks for; the game server's request with the session and the two numbers that the client was sent
  -- is granted, up to the age limit of keys.
  pub handle_player_auth_request-handle_request_server_login :
      (h : Handler) (c : ℕ) (client : Client) (username password : String) (faults : Faults)
      (salt : ℕ) (account : Account) (repo : AccountRepo) (server_id now later : ℕ) (r1 r2 : Random)
      (p1 p2 : ℕ) (update_fails : Bool)
      → lookup c h.clients ≡ some client
      → handle_auth_login bc h.auto_create h.repo faults salt username password
        ≡ (logged_in account, repo)
      → generate_random_uint32 r1 ≡ some p1
      → generate_random_uint32 r2 ≡ some p2
      → later ≤ now + h.session_use_case.max_session_age
      → (h1 : Handler) × (h2 : Handler) × (client1 : Client) × (old : Option ℕ)
        × (handle_request_auth_login bc h c client (some (username, password)) faults salt
            ≡ some (h1, account_in_use old ++ (c, login_ok client.session_id) ∷ []))
        × (lookup c h1.clients ≡ some client1)
        × (handle_request_server_login h1 c client1 server_id now r1 r2 update_fails
            ≡ (h2, (c, play_ok p1 p2) ∷ [], false))
        × ((handle_player_auth_request h2.session_use_case later account.username
              (shown_key client.session_id p1 p2 account.username)).0
            ≡ true)
  unfolding handle_request_auth_login answer_login sign_in register_account
  handle_player_auth_request-handle_request_server_login h c client username password faults salt
        account repo server_id now later r1 r2 p1 p2 update_fails there login e1 e2 time =
      let h1 = (sign_in (record h { repo = repo }) c client account).0 in
      let signed = signed_in client account in
      let holder = lookup account.username h.accounts in
      let (h2, answer, granted) =
        server_login-granted h1 c client account server_id now later r1 r2 p1 p2 update_fails e1 e2
          time in
      (
        h1,
        h2,
        signed,
        other_than c holder,
        rw login refl,
        lookup-kick_other c signed (insert c signed h.clients) holder
            (ground (arith, lookup-insert c c signed h.clients)),
        answer,
        granted,
      )
