-- ===== src/Login/Keys/Laws.antt =====
-- A key is good for one login, within its time.
use l2go.Prelude.{
  ℕ, ◌+◌, ◌≤◌, ◌≡◌, Bool, true, false, not, ◌&&◌, ◌||◌, Option, none, some, if◌then◌else◌, String,
  string_eq, nat_eq, arith,
}
use l2go.Prelude.Dict.{lookup, lookup-insert, lookup-delete}
use l2go.Login.Keys.{
  SessionKey, equals, is_expired, SessionUseCase, Random, store_key, create_session_key,
  validate_session_key, remove_session_key, handle_player_auth_request,
}
use l2go.Login.Keys.Requests.{Requests, validate_request, consume_key}

-- The verdict on the key stored for an account.
abbrev pub good : Option SessionKey → ℕ → ℕ → SessionKey → Bool
good none now max_age requested = false
good (some stored) now max_age requested =
    not (is_expired stored now max_age) && equals stored requested

abbrev pub stale : Option SessionKey → ℕ → ℕ → Bool
stale none now max_age = false
stale (some stored) now max_age = is_expired stored now max_age

abbrev pub stored_key : SessionUseCase → String → Option SessionKey
stored_key uc account = lookup account uc.session_keys

-- A request that runs alone is granted exactly when the account's key is there, in time and equal in
-- its four numbers; after it, the account's key is gone if the request was granted or the key was
-- late, and every other key is as before.
pub handle_player_auth_request_lem :
    (uc : SessionUseCase) (now : ℕ) (account : String) (requested : SessionKey) (other : String)
    → let (granted, uc') = handle_player_auth_request uc now account requested in
      let key = stored_key uc account in
      (granted ≡ good key now uc.max_session_age requested)
      × (uc'.max_session_age ≡ uc.max_session_age)
      × (stored_key uc' other ≡ (
          if string_eq.beq account other && (granted || stale key now uc.max_session_age)
          then none
          else stored_key uc other))
unfolding handle_player_auth_request validate_session_key remove_session_key
handle_player_auth_request_lem uc now account requested other = ground (
  arith,
  lookup-delete account other uc.session_keys,
  lookup-delete account account uc.session_keys,
)

-- A request that runs alone is its validation and then its removal.
pub consume_key-validate_request :
    (s : Requests) (gs now : ℕ) (account : String) (requested : SessionKey)
    → s.to_remove gs ≡ none
    → let (granted, s') = validate_request s gs now account requested in
      (granted, (consume_key s' gs).session_use_case)
      ≡ handle_player_auth_request s.session_use_case now account requested
unfolding handle_player_auth_request validate_request consume_key validate_session_key
consume_key-validate_request s gs now account requested idle =
    ground (arith, idle, nat_eq.beq_iff gs gs)

-- A second request for the account, whatever its keys and its time, is refused after one that was
-- granted, when no key was made in between.
pub handle_player_auth_request_once :
    (uc : SessionUseCase) (now later : ℕ) (account : String) (requested again : SessionKey)
    → let (granted, uc') = handle_player_auth_request uc now account requested in
      (granted && (handle_player_auth_request uc' later account again).0) ≡ false
handle_player_auth_request_once uc now later account requested again =
    let uc' = (handle_player_auth_request uc now account requested).1 in
    ground (
      arith,
      handle_player_auth_request_lem uc now account requested account,
      handle_player_auth_request_lem uc' later account again account,
      string_eq.beq_iff account account,
    )

-- A key that was made is granted once by any request with its four numbers, up to its age limit.
pub handle_player_auth_request-create_session_key :
    (uc : SessionUseCase) (now later : ℕ) (account : String) (server_id login1 login2 : ℕ)
    (random1 random2 : Random) (key requested : SessionKey)
    → (create_session_key uc now account server_id login1 login2 random1 random2).0 ≡ some key
    → later ≤ now + uc.max_session_age
    → equals key requested ≡ true
    → let uc' = (create_session_key uc now account server_id login1 login2 random1 random2).1 in
      (handle_player_auth_request uc' later account requested).0 ≡ true
unfolding create_session_key store_key is_expired
handle_player_auth_request-create_session_key uc now later account sid l1 l2 r1 r2 key requested
      made time eq =
    let uc' = (create_session_key uc now account sid l1 l2 r1 r2).1 in
    ground (
      arith,
      handle_player_auth_request_lem uc' later account requested account,
      lookup-insert account account key uc.session_keys,
      string_eq.beq_iff account account,
    )
