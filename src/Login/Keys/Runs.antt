-- ===== src/Login/Keys/Runs.antt =====
-- Runs of the login server's key store, counted by account. An event is what one lock covers, so that
-- the requests of several game servers come interleaved.
use l2go.Prelude.{
  ℕ, zero, suc, ◌+◌, ◌*◌, ◌≤◌, ◌<◌, ◌≡◌, refl, Bool, true, false, not, ◌&&◌, Option, none, some,
  List, [], ◌∷◌, All, String, string_eq, nat_eq, arith, inl, inr, Option-cases, if◌then◌else◌,
}
use l2go.Prelude.Dict.{Dict, lookup, lookup-insert, lookup-delete}
use l2go.Prelude.Nested.{is_some}
use l2go.Login.Keys.{
  SessionKey, new_session_use_case, Random, key_from, generate_random_uint32, store_key,
  create_session_key, validate_session_key, remove_session_key, drop_expired,
  cleanup_expired_sessions, handle_player_logout,
}
use l2go.Login.Keys.Requests.{
  Requests, new_requests, set_removal, with_store, validate_request, consume_key,
}

pub data Event : Type 0 where
  creates : ℕ → String → ℕ → ℕ → ℕ → Random → Random → Event
  validates : ℕ → ℕ → String → SessionKey → Event
  consumes : ℕ → Event
  logs_out : String → Event
  cleans_up : ℕ → Event

unfoldable pub step : Requests → Event → Requests
step s (creates now account sid l1 l2 r1 r2) =
    with_store s (create_session_key s.session_use_case now account sid l1 l2 r1 r2).1
step s (validates gs now account requested) = (validate_request s gs now account requested).1
step s (consumes gs) = consume_key s gs
step s (logs_out account) = with_store s (handle_player_logout s.session_use_case account)
step s (cleans_up now) = with_store s (cleanup_expired_sessions s.session_use_case now).1

abbrev pub bit : Bool → ℕ
bit true = 1
bit false = 0

-- Whether a step makes a key for the account, and whether it lets the account in.
unfoldable pub makes : Requests → Event → String → Bool
makes s (creates now account sid l1 l2 r1 r2) a =
    string_eq.beq account a
    && is_some (create_session_key s.session_use_case now account sid l1 l2 r1 r2).0
makes s _ a = false

unfoldable pub admits : Requests → Event → String → Bool
admits s (validates gs now account requested) a =
    string_eq.beq account a && (validate_request s gs now account requested).0
admits s _ a = false

unfoldable pub made : Requests → List Event → String → ℕ
made s [] a = 0
made s (e ∷ es) a = bit (makes s e a) + made (step s e) es a

unfoldable pub admitted : Requests → List Event → String → ℕ
admitted s [] a = 0
admitted s (e ∷ es) a = bit (admits s e a) + admitted (step s e) es a

-- The connections of game servers are the numbers below n.
abbrev pub IsAmong : ℕ → Event → Type 0
IsAmong n (validates gs now account requested) = gs < n
IsAmong n (consumes gs) = gs < n
IsAmong n _ = Unit

lookup-drop_expired :
    (now max_age : ℕ) (a : String) (m : Dict String SessionKey)
    → lookup a m ≡ none
    → lookup a (drop_expired now max_age m) ≡ none
unfolding drop_expired lookup
lookup-drop_expired now max_age a [] h = refl
lookup-drop_expired now max_age a ((b, key) ∷ m) h =
    ground (arith, lookup-drop_expired now max_age a m)

abbrev is_for : String → Option String → Bool
is_for a none = false
is_for a (some b) = string_eq.beq b a

-- How many connections are not about to remove the account's key.
pub free : ℕ → (ℕ → Option String) → String → ℕ
free zero to_remove a = 0
free (suc n) to_remove a = bit (not (is_for a (to_remove n))) + free n to_remove a

free-le : (n : ℕ) (p : ℕ → Option String) (a : String) → free n p a ≤ n
unfolding free
free-le zero p a = omega arith
free-le (suc n) p a = ground (arith, free-le n p a)

free-above :
    (n : ℕ) (p : ℕ → Option String) (gs : ℕ) (x : Option String) (a : String)
    → n ≤ gs
    → free n (set_removal p gs x) a ≡ free n p a
unfolding free
free-above zero p gs x a h = refl
free-above (suc n) p gs x a h = ground (arith, free-above n p gs x a)

free-set_removal :
    (n : ℕ) (p : ℕ → Option String) (gs : ℕ) (x : Option String) (a : String)
    → gs < n
    → free n (set_removal p gs x) a + bit (not (is_for a (p gs)))
      ≡ free n p a + bit (not (is_for a x))
unfolding free
free-set_removal zero p gs x a h = absurd (omega arith)
free-set_removal (suc n) p gs x a h =
    ground (arith, free-set_removal n p gs x a, free-above n p gs x a)

-- How often the account's key can still let it in.
pub chances : ℕ → Requests → String → ℕ
chances n s a =
    if is_some (lookup a s.session_use_case.session_keys) then free n s.to_remove a else 0

store_key-chances :
    (n : ℕ) (s : Requests) (account : String) (key : Option SessionKey) (a : String)
    → chances n (with_store s (store_key s.session_use_case account key)) a
      ≤ n * bit (string_eq.beq account a && is_some key) + chances n s a
unfolding chances store_key
store_key-chances n s account none a = ground arith
store_key-chances n s account (some key) a =
    ground
      (arith, lookup-insert account a key s.session_use_case.session_keys, free-le n s.to_remove a)

-- A step spends a chance for a login.
pub step-chances :
    (n : ℕ) (s : Requests) (e : Event) (a : String)
    → IsAmong n e
    → bit (admits s e a) + chances n (step s e) a ≤ n * bit (makes s e a) + chances n s a
unfolding admits makes step create_session_key validate_session_key handle_player_logout
    remove_session_key cleanup_expired_sessions validate_request consume_key chances
step-chances n s (creates now account sid l1 l2 r1 r2) a among =
    let key =
      key_from (generate_random_uint32 r1) (generate_random_uint32 r2) account sid l1 l2 now in
    omega (arith, store_key-chances n s account key a)
step-chances n s (validates gs now account requested) a among =
    elim (Option-cases (s.to_remove gs)) [
      | inl idle ↦ ground (
        arith,
        idle,
        lookup-delete account a s.session_use_case.session_keys,
        string_eq.beq_iff account a,
        free-set_removal n s.to_remove gs (some account) a among,
      )
      | inr (busy, has) ↦ ground (arith, has)
    ]
step-chances n s (consumes gs) a among = elim (Option-cases (s.to_remove gs)) [
  | inl idle ↦ ground (arith, idle)
  | inr (account, has) ↦ ground (
    arith,
    has,
    lookup-delete account a s.session_use_case.session_keys,
    string_eq.beq_iff account a,
    free-set_removal n s.to_remove gs none a among,
  )
]
step-chances n s (logs_out account) a among =
    ground (arith, lookup-delete account a s.session_use_case.session_keys)
step-chances n s (cleans_up now) a among = ground (
  arith,
  lookup-drop_expired now s.session_use_case.max_session_age a s.session_use_case.session_keys,
)

admitted-chances :
    (n : ℕ) (s : Requests) (es : List Event) (a : String)
    → All (IsAmong n) es
    → admitted s es a ≤ n * made s es a + chances n s a
unfolding admitted made
admitted-chances n s [] a among = omega arith
admitted-chances n s (e ∷ es) a among =
    omega (arith, step-chances n s e a among.0, admitted-chances n (step s e) es a among.1)

pub empty : (n max_age : ℕ) (a : String) → chances n (new_requests max_age) a ≡ 0
unfolding chances new_requests new_session_use_case lookup
empty n max_age a = refl

-- From a server without keys, over n connections of game servers an account is let in at most n times
-- as often as a key was made for it, so with one connection at most as often; whatever requests,
-- logouts and clean-ups come, in whatever order and at whatever times, also between the validation of
-- a key and its removal.
pub admitted-made :
    (n max_age : ℕ) (es : List Event) (a : String)
    → All (IsAmong n) es
    → admitted (new_requests max_age) es a ≤ n * made (new_requests max_age) es a
admitted-made n max_age es a among =
    omega (arith, admitted-chances n (new_requests max_age) es a among, empty n max_age a)
