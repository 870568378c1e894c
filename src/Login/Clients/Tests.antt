-- ===== src/Login/Clients/Tests.antt =====
-- Two clients and one account, under a toy hash.
use l2go.Prelude.{
  ℕ, ◌+◌, ◌*◌, ◌≤◌, ◌≡◌, refl, true, false, not, ◌++◌, Option, none, some, List, [], ◌∷◌, String,
  string_eq, nat_eq, arith,
}
use l2go.Prelude.Int.{pos}
use l2go.Prelude.Dict.{lookup, insert, delete}
use l2go.Prelude.Nested.{is_some}
use l2go.Login.Keys.{new_session_use_case, handle_player_auth_request}
use l2go.Login.Clients.Accounts.{
  Bcrypt, Account, AccountRepo, Faults, logged_in, get_by_username, check_login, handle_auth_login,
  create_account,
}
use l2go.Login.Clients.Accounts.Laws.{Leaves, handle_auth_login_sound}
use l2go.Login.Clients.{
  Client, Handler, login_ok, play_ok, account_in_use, handle_request_auth_login,
  handle_request_server_login, new_client, add_client, sign_in, answer_login, register_account,
  close_socket, signed_in, remove_client,
}
use l2go.Login.Clients.Runs.{
  Event, connects, asks_login, asks_server, reads_header, disconnects, key_packet, validates_player,
  consumes_key, new_handler, apply, after,
}
use l2go.Login.Clients.Sole.{user_of, after-sole}
use l2go.Login.Clients.Entry.{entered, sent_on, entered-sent_on}
use l2go.Login.Clients.Panics.{has_panic, after-panics}
use l2go.Login.Clients.Arrival.{shown_key, handle_player_auth_request-handle_request_server_login}

same_text :
    (salt : ℕ) (password hash : String)
    → some password ≡ some hash
    → string_eq.beq hash password ≡ true
same_text salt password hash e = ground (arith, e, string_eq.beq_iff hash password)

abbrev plain_text : Bcrypt
plain_text = record {
  compare_hash_and_password = string_eq.beq;
  generate_from_password = λ salt password. some password;
  accepts = same_text;
}

abbrev ann : Account
ann = record {
  id = 1;
  username = "ann";
  password = "secret";
  access_level = pos 0;
  last_server = 0;
}

abbrev table : AccountRepo
table = record { rows = ann ∷ []; next_id = 2 }

abbrev works : Faults
works = record { on_lookup = false; on_create = false }

abbrev session : List ℕ
session = 1 ∷ 0 ∷ 0 ∷ 0 ∷ 2 ∷ 0 ∷ 0 ∷ 0 ∷ []

abbrev start : Handler
start = new_handler true 100 table

abbrev takeover : List Event
takeover =
    connects 7 session
    ∷ connects 8 session
    ∷ asks_login 7 (some ("ann", "secret")) works 0
    ∷ asks_login 8 (some ("ann", "secret")) works 0
    ∷ disconnects 7
    ∷ []

abbrev or_start : Option Handler → Handler
or_start none = start
or_start (some h) = h

abbrev taken_over : Handler
taken_over = or_start (after plain_text start takeover)

ann_logs_in :
    handle_auth_login plain_text true table works 0 "ann" "secret" ≡ (logged_in ann, table)
unfolding handle_auth_login get_by_username check_login
ann_logs_in = refl

taken_over_runs : after plain_text start takeover ≡ some taken_over
unfolding after apply new_handler add_client new_client lookup insert delete
    handle_request_auth_login handle_auth_login get_by_username check_login answer_login sign_in
    register_account close_socket signed_in
taken_over_runs = refl

eight_is_ann : user_of taken_over 8 ≡ some "ann"
unfolding after apply new_handler add_client new_client lookup insert delete
    handle_request_auth_login handle_auth_login get_by_username check_login answer_login sign_in
    register_account close_socket signed_in remove_client
eight_is_ann = refl

after-sole_example : ◌≡◌ {A = ℕ} 8 8
after-sole_example =
    after-sole plain_text true 100 table takeover taken_over 8 8 "ann" taken_over_runs eight_is_ann
      eight_is_ann

abbrev journey : List Event
journey =
    connects 7 session
    ∷ asks_login 7 (some ("ann", "secret")) works 0
    ∷ asks_server 7 1 10 (some (9 ∷ 0 ∷ 0 ∷ 0 ∷ [])) (some (8 ∷ 0 ∷ 0 ∷ 0 ∷ [])) false
    ∷ validates_player 0 20 "ann" (shown_key session 9 8 "ann")
    ∷ validates_player 1 20 "ann" (shown_key session 9 8 "ann")
    ∷ consumes_key 0
    ∷ consumes_key 1
    ∷ validates_player 0 21 "ann" (shown_key session 9 8 "ann")
    ∷ []

entered-sent_on_example :
    entered plain_text (new_handler true 100 table) journey "ann"
    ≤ 2 * sent_on plain_text (new_handler true 100 table) journey "ann"
entered-sent_on_example =
    entered-sent_on plain_text 2 true 100 table journey "ann" (
      tt,
      (tt, (tt, (omega arith, (omega arith, (omega arith, (omega arith, (omega arith, tt))))))),
    )

abbrev ends_badly : List Event
ends_badly =
    connects 7 session
    ∷ reads_header 7 186 0
    ∷ key_packet (16 ∷ 0 ∷ 0 ∷ 0 ∷ [])
    ∷ asks_login 7 none works 0
    ∷ []

after-panics_example : is_some (after plain_text start ends_badly) ≡ not (has_panic [] ends_badly)
after-panics_example = after-panics plain_text true 100 table ends_badly

abbrev bob : Account
bob = record { id = 2; username = "bob"; password = "pass"; access_level = pos 0; last_server = 0 }

abbrev both : AccountRepo
both = record { rows = ann ∷ bob ∷ []; next_id = 3 }

bob_signs_up : handle_auth_login plain_text true table works 0 "bob" "pass" ≡ (logged_in bob, both)
unfolding handle_auth_login get_by_username create_account
bob_signs_up = refl

handle_auth_login_sound_example :
    Leaves plain_text table both "bob" "pass" bob
    × (handle_auth_login plain_text false both works 5 "bob" "pass" ≡ (logged_in bob, both))
handle_auth_login_sound_example =
    handle_auth_login_sound plain_text true false table both works works 0 5 "bob" "pass" bob
      bob_signs_up refl

abbrev waiting_client : Handler
waiting_client = add_client start 7 session

client_waits : lookup 7 waiting_client.clients ≡ some (new_client session)
unfolding add_client new_handler lookup insert
client_waits = refl

same_table :
    handle_auth_login plain_text waiting_client.auto_create waiting_client.repo works 0 "ann"
      "secret"
    ≡ (logged_in ann, table)
unfolding add_client new_handler lookup handle_auth_login get_by_username check_login
same_table = refl

age_limit : 20 ≤ 10 + waiting_client.session_use_case.max_session_age
unfolding add_client new_handler lookup new_session_use_case
age_limit = omega arith

handle_player_auth_request-handle_request_server_login_example :
    (h1 : Handler) × (h2 : Handler) × (client1 : Client) × (old : Option ℕ)
    × (handle_request_auth_login plain_text waiting_client 7
          (new_client session)
          (some ("ann", "secret"))
          works
          0
        ≡ some (h1, account_in_use old ++ (7, login_ok (new_client session).session_id) ∷ []))
    × (lookup 7 h1.clients ≡ some client1)
    × (handle_request_server_login h1 7 client1 1 10 (some (9 ∷ [])) (some (8 ∷ [])) false
        ≡ (h2, (7, play_ok 9 8) ∷ [], false))
    × ((handle_player_auth_request h2.session_use_case 20 "ann"
          (shown_key (new_client session).session_id 9 8 "ann")).0
        ≡ true)
handle_player_auth_request-handle_request_server_login_example =
    handle_player_auth_request-handle_request_server_login plain_text waiting_client 7
      (new_client session) "ann" "secret" works 0 ann table 1 10 20 (some (9 ∷ [])) (some (8 ∷ []))
      9 8 false client_waits same_table refl refl age_limit
