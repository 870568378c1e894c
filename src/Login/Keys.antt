-- ===== src/Login/Keys.antt =====
-- SessionUseCase of internal/loginserver/usecase/session.go, SessionKey of models/session.go and
-- the two handlers of usecase/gameservercomm.go that use them. A time is a number of nanoseconds,
-- and each operation is told the time at which it runs; a key is the bit pattern of a uint32.
pub mod Requests
pub mod Laws
pub mod Runs
mod Tests
use l2go.Prelude.{
  ℕ, suc, ◌+◌, ◌*◌, Bool, true, false, not, ◌&&◌, Option, none, some, List, [], ◌∷◌, ◌==◌,
  if◌then◌else◌, ltb, length, get_or, String, string_eq,
}
use l2go.Prelude.Dict.{Dict, lookup, insert, delete}

pub record SessionKey : Type 0 where
  pub login_key1 : ℕ
  pub login_key2 : ℕ
  pub play_key1 : ℕ
  pub play_key2 : ℕ
  pub account : String
  pub server_id : ℕ
  pub created_at : ℕ

unfoldable pub equals : SessionKey → SessionKey → Bool
equals sk other =
    sk.login_key1 == other.login_key1
    && sk.login_key2 == other.login_key2
    && sk.play_key1 == other.play_key1
    && sk.play_key2 == other.play_key2

pub is_expired : SessionKey → ℕ → ℕ → Bool
is_expired sk now max_age = ltb (sk.created_at + max_age) now

pub record SessionUseCase : Type 0 where
  pub session_keys : Dict String SessionKey
  pub max_session_age : ℕ

-- 5 minutes by default.
unfoldable pub new_session_use_case : ℕ → SessionUseCase
new_session_use_case max_age = record {
  session_keys = [];
  max_session_age = if max_age == 0 then 300000000000 else max_age;
}

-- What `rand.Read` gives: four bytes, or an error.
abbrev pub Random : Type 0
Random = Option (List ℕ)

abbrev pub generate_random_uint32 : Random → Option ℕ
generate_random_uint32 none = none
generate_random_uint32 (some bytes) = some (
    get_or bytes 0 0
    + 256 * get_or bytes 1 0
    + 65536 * get_or bytes 2 0
    + 16777216 * get_or bytes 3 0)

abbrev pub key_from : Option ℕ → Option ℕ → String → ℕ → ℕ → ℕ → ℕ → Option SessionKey
key_from (some play1) (some play2) account server_id login1 login2 now = some (record {
  login_key1 = login1;
  login_key2 = login2;
  play_key1 = play1;
  play_key2 = play2;
  account = account;
  server_id = server_id;
  created_at = now;
})
key_from _ _ account server_id login1 login2 now = none

pub store_key : SessionUseCase → String → Option SessionKey → SessionUseCase
store_key uc account none = uc
store_key uc account (some key) = record uc { session_keys = insert account key uc.session_keys }

-- `none` is the error of the random source.
unfoldable pub create_session_key :
    SessionUseCase → ℕ → String → ℕ → ℕ → ℕ → Random → Random → Option SessionKey × SessionUseCase
create_session_key uc now account server_id login1 login2 random1 random2 =
    let key =
      key_from (generate_random_uint32 random1) (generate_random_uint32 random2) account server_id
        login1 login2 now in
    (key, store_key uc account key)

abbrev pub forget_key : SessionUseCase → String → SessionUseCase
forget_key uc account = record uc { session_keys = delete account uc.session_keys }

pub validate_session_key : SessionUseCase → ℕ → String → SessionKey → Bool × SessionUseCase
validate_session_key uc now account requested = elim (lookup account uc.session_keys) [
  | none ↦ (false, uc)
  | some stored ↦
      if is_expired stored now uc.max_session_age
      then (false, forget_key uc account)
      else (equals stored requested, uc)
]

-- Whether there was a key to remove.
pub remove_session_key : SessionUseCase → String → Bool × SessionUseCase
remove_session_key uc account = elim (lookup account uc.session_keys) [
  | none ↦ (false, uc)
  | some stored ↦ (true, forget_key uc account)
]

pub get_session_key : SessionUseCase → ℕ → String → Option SessionKey
get_session_key uc now account = elim (lookup account uc.session_keys) [
  | none ↦ none
  | some stored ↦ if is_expired stored now uc.max_session_age then none else some stored
]

pub drop_expired : ℕ → ℕ → Dict String SessionKey → Dict String SessionKey
drop_expired now max_age [] = []
drop_expired now max_age ((account, key) ∷ m) =
    if is_expired key now max_age
    then drop_expired now max_age m
    else (account, key) ∷ drop_expired now max_age m

pub count_expired : ℕ → ℕ → Dict String SessionKey → ℕ
count_expired now max_age [] = 0
count_expired now max_age ((account, key) ∷ m) =
    if is_expired key now max_age
    then suc (count_expired now max_age m)
    else count_expired now max_age m

pub cleanup_expired_sessions : SessionUseCase → ℕ → ℕ × SessionUseCase
cleanup_expired_sessions uc now = (
  count_expired now uc.max_session_age uc.session_keys,
  record uc { session_keys = drop_expired now uc.max_session_age uc.session_keys },
)

pub get_session_count : SessionUseCase → ℕ
get_session_count uc = length uc.session_keys

-- A request that runs alone. The handler takes the lock twice, to validate the key and to remove it;
-- `Requests` has what comes in between.
pub handle_player_auth_request : SessionUseCase → ℕ → String → SessionKey → Bool × SessionUseCase
handle_player_auth_request uc now account requested =
    let (valid, uc') = validate_session_key uc now account requested in
    (valid, if valid then (remove_session_key uc' account).1 else uc')

pub handle_player_logout : SessionUseCase → String → SessionUseCase
handle_player_logout uc account = (remove_session_key uc account).1
