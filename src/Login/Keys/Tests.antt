-- ===== src/Login/Keys/Tests.antt =====
-- One login, a request that comes again, and a key that is late.
use l2go.Prelude.{
  ◌*◌, ◌≡◌, ◌≤◌, refl, arith, false, ◌&&◌, ◌||◌, none, some, List, [], ◌∷◌, string_eq,
  if◌then◌else◌,
}
use l2go.Prelude.Dict.{lookup, insert, delete}
use l2go.Login.Keys.{
  SessionKey, SessionUseCase, equals, is_expired, new_session_use_case, Random, store_key,
  create_session_key, handle_player_auth_request, validate_session_key, remove_session_key,
}
use l2go.Login.Keys.Requests.{new_requests, validate_request, consume_key}
use l2go.Login.Keys.Laws.{good, stale, stored_key, handle_player_auth_request_lem}
use l2go.Login.Keys.Runs.{
  Event, creates, validates, consumes, step, makes, admits, made, admitted, admitted-made,
}

abbrev random : Random
random = some (1 ∷ 2 ∷ 3 ∷ 4 ∷ [])

abbrev key : SessionKey
key = record {
  login_key1 = 5;
  login_key2 = 6;
  play_key1 = 0x04030201;
  play_key2 = 0x04030201;
  account = "ann";
  server_id = 1;
  created_at = 10;
}

abbrev server : SessionUseCase
server = record { session_keys = ("ann", key) ∷ []; max_session_age = 100 }

abbrev empty_server : SessionUseCase
empty_server = record { session_keys = []; max_session_age = 100 }

abbrev events : List Event
events =
    creates 10 "ann" 1 5 6 random random
    ∷ validates 0 20 "ann" key
    ∷ validates 1 20 "ann" key
    ∷ consumes 0
    ∷ consumes 1
    ∷ validates 1 21 "ann" key
    ∷ []

too_late : (handle_player_auth_request server 111 "ann" key).0 ≡ false
unfolding handle_player_auth_request validate_session_key is_expired lookup
too_late = refl

handle_player_auth_request_lem_example :
    let (granted, uc') = handle_player_auth_request server 20 "ann" key in
    (granted ≡ good (stored_key server "ann") 20 100 key)
    × (uc'.max_session_age ≡ 100)
    × (stored_key uc' "bob" ≡ (
        if string_eq.beq "ann" "bob" && (granted || stale (stored_key server "ann") 20 100)
        then none
        else stored_key server "bob"))
handle_player_auth_request_lem_example = handle_player_auth_request_lem server 20 "ann" key "bob"

admitted-made_example :
    admitted (new_requests 100) events "ann" ≤ 2 * made (new_requests 100) events "ann"
admitted-made_example =
    admitted-made 2 100 events "ann"
      (tt, (omega arith, (omega arith, (omega arith, (omega arith, (omega arith, tt))))))

-- One key lets an account in twice, over two connections at once.
two_at_once :
    (admitted (new_requests 100) events "ann" ≡ 2) × (made (new_requests 100) events "ann" ≡ 1)
unfolding admitted made admits makes step validate_request validate_session_key consume_key
    remove_session_key create_session_key store_key new_requests new_session_use_case lookup insert
    delete is_expired equals
two_at_once = (refl, refl)
