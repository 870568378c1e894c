-- ===== src/Login/Clients.antt =====
-- The clients of the login server: usecase/client.go, the table of accounts of repo/postgres.go, and
-- handlers/client of internal/loginserver. A connection is a number, the address of its Client.
pub mod Accounts
pub mod Runs
pub mod Sole
pub mod Entry
pub mod Panics
pub mod Arrival
mod Tests
use l2go.Prelude.{
  ℕ, ◌+◌, ◌-◌, ◌*◌, ◌≡◌, Bool, true, false, ◌||◌, Option, none, some, List, [], ◌∷◌, ◌++◌, ◌==◌,
  ltb, if◌then◌else◌, String, string_eq, nat_eq, take, drop,
}
use l2go.Prelude.Dict.{Dict, lookup, insert, delete}
use l2go.Prelude.Int.{ℤ, pos, negsuc}
use l2go.Packet.{le_value}
use l2go.Login.Keys.{SessionKey, SessionUseCase, Random, create_session_key}
use l2go.Login.Clients.Accounts.{
  Bcrypt, Account, AccountRepo, update_last_server, AuthLogin, logged_in, refused, LoginError,
  account_banned, account_not_found, other_error, Faults, handle_auth_login,
}

-- Of transport.Client: who it is, whether the handler lists it, and whether its socket is open.
pub record Client : Type 0 where
  pub session_id : List ℕ
  pub login_ok_id1 : ℕ
  pub login_ok_id2 : ℕ
  pub account : Option Account
  pub access_level : ℤ
  pub last_server : ℕ
  pub listed : Bool
  pub is_open : Bool

unfoldable pub new_client : List ℕ → Client
new_client session_id = record {
  session_id = session_id;
  login_ok_id1 = 0;
  login_ok_id2 = 0;
  account = none;
  access_level = pos 0;
  last_server = 0;
  listed = true;
  is_open = true;
}

-- The handler with what it reaches: every client there was, the client of each account, and what the
-- handlers of game servers have still to do with the key store (Keys.Requests).
pub record Handler : Type 0 where
  pub repo : AccountRepo
  pub session_use_case : SessionUseCase
  pub auto_create : Bool
  pub clients : Dict ℕ Client
  pub accounts : Dict String ℕ
  pub to_remove : ℕ → Option String

pub data Reply : Type 0 where
  login_fail : ℕ → Reply
  login_ok : List ℕ → Reply
  play_ok : ℕ → ℕ → Reply

-- The replies of a step, each with the client it goes to.
abbrev pub Sent : Type 0
Sent = List (ℕ × Reply)

-- What Client.Receive allocates after it has read a header; `make` panics on a negative size.
unfoldable pub data_size : ℕ → ℕ → Option ℕ
data_size b0 b1 = let size = b0 + b1 * 256 in if ltb size 2 then none else some (size - 2)

-- A new client is at a new address.
unfoldable pub add_client : Handler → ℕ → List ℕ → Handler
add_client h c session_id = elim (lookup c h.clients) [
  | some client ↦ h
  | none ↦ record h { clients = insert c (new_client session_id) h.clients }
]

abbrev pub other_than : ℕ → Option ℕ → Option ℕ
other_than c none = none
other_than c (some old) = if old == c then none else some old

unfoldable pub register_account : Dict String ℕ → String → ℕ → Option ℕ × Dict String ℕ
register_account accounts username c =
    (other_than c (lookup username accounts), insert username c accounts)

abbrev pub closed : Client → Client
closed client = record client { is_open = false }

unfoldable pub close_socket : ℕ → Dict ℕ Client → Dict ℕ Client
close_socket c clients = elim (lookup c clients) [
  | none ↦ clients
  | some client ↦ insert c (closed client) clients
]

abbrev pub kick : Option ℕ → Dict ℕ Client → Dict ℕ Client
kick none clients = clients
kick (some old) clients = close_socket old clients

abbrev pub account_in_use : Option ℕ → Sent
account_in_use none = []
account_in_use (some old) = (old, login_fail 0x07) ∷ []

unfoldable pub signed_in : Client → Account → Client
signed_in client account = record client {
  account = some account;
  access_level = account.access_level;
  last_server = account.last_server;
  login_ok_id1 = le_value (take 4 client.session_id);
  login_ok_id2 = le_value (take 4 (drop 4 client.session_id));
}

unfoldable pub sign_in : Handler → ℕ → Client → Account → Handler × Sent
sign_in h c client account =
    let (old, accounts) = register_account h.accounts account.username c in
    (
      record h {
        clients = kick old (insert c (signed_in client account) h.clients);
        accounts = accounts;
      },
      account_in_use old ++ (c, login_ok client.session_id) ∷ [],
    )

abbrev pub reason_of : LoginError → ℕ
reason_of account_banned = 0x28
reason_of account_not_found = 0x02
reason_of other_error = 0x15

unfoldable pub answer_login : Handler → ℕ → Client → AuthLogin → Handler × Sent
answer_login h c client (refused e) = (h, (c, login_fail (reason_of e)) ∷ [])
answer_login h c client (logged_in account) = sign_in h c client account

-- `none` is the panic on the nil packet of a request that was not read: the handler goes on after
-- the reply to it.
unfoldable pub handle_request_auth_login :
    Bcrypt → Handler → ℕ → Client → Option (String × String) → Faults → ℕ → Option (Handler × Sent)
handle_request_auth_login bc h c client none faults salt = none
handle_request_auth_login bc h c client (some (username, password)) faults salt =
    let (login, repo) = handle_auth_login bc h.auto_create h.repo faults salt username password in
    some (answer_login (record h { repo = repo }) c client login)

-- What HandleRequestServerLogin gives: the handler, the replies, and whether it is an error, on which
-- the connection is closed.
unfoldable pub answer_server_login :
    Handler → ℕ → Client → Account → ℕ → Option SessionKey → Bool → Handler × Sent × Bool
answer_server_login h c client account server_id none update_fails =
    (h, (c, login_fail 0x04) ∷ [], true)
answer_server_login h c client account server_id (some key) update_fails =
    let account' = if update_fails then account else record account { last_server = server_id } in
    let client' = record client { account = some account'; last_server = server_id } in
    let repo = if update_fails then h.repo else update_last_server h.repo account.id server_id in
    (
      record h { repo = repo; clients = insert c client' h.clients },
      (c, play_ok key.play_key1 key.play_key2) ∷ [],
      false,
    )

unfoldable pub server_login_of :
    Handler → ℕ → Client → Option Account → ℕ → ℕ → Random → Random → Bool → Handler × Sent × Bool
server_login_of h c client none server_id now r1 r2 update_fails =
    (h, (c, login_fail 0x04) ∷ [], false)
server_login_of h c client (some account) server_id now r1 r2 update_fails =
    let (key, uc) =
      create_session_key h.session_use_case now account.username server_id client.login_ok_id1
        client.login_ok_id2 r1 r2 in
    answer_server_login (record h { session_use_case = uc }) c client account server_id key
      update_fails

unfoldable pub handle_request_server_login :
    Handler → ℕ → Client → ℕ → ℕ → Random → Random → Bool → Handler × Sent × Bool
handle_request_server_login h c client server_id now r1 r2 update_fails =
    server_login_of h c client client.account server_id now r1 r2 update_fails

abbrev pub points_at : ℕ → Option ℕ → Bool
points_at c none = false
points_at c (some d) = d == c

-- Only an entry that still points at this client is dropped.
abbrev pub drop_account : Dict String ℕ → ℕ → Option Account → Dict String ℕ
drop_account accounts c none = accounts
drop_account accounts c (some account) =
    if points_at c (lookup account.username accounts)
    then delete account.username accounts
    else accounts

-- The end of a connection: its socket is closed, and it leaves the handler.
unfoldable pub remove_client : Handler → ℕ → Handler
remove_client h c = elim (lookup c h.clients) [
  | none ↦ h
  | some client ↦ record h {
    clients = insert c (record client { listed = false; is_open = false }) h.clients;
    accounts = drop_account h.accounts c client.account;
  }
]
