-- ===== src/Login/Keys/Requests.antt =====
-- HandlePlayerAuthRequest of internal/loginserver/usecase/gameservercomm.go, lock by lock: the
-- goroutines of the game servers' connections run at once, and each handles one packet after another.
use l2go.Prelude.{ℕ, Bool, false, ◌==◌, Option, none, some, if◌then◌else◌, String}
use l2go.Login.Keys.{
  SessionKey, SessionUseCase, new_session_use_case, validate_session_key, remove_session_key,
}

-- The key store, and of each connection of a game server the account whose key it has validated and
-- is going to remove.
pub record Requests : Type 0 where
  pub session_use_case : SessionUseCase
  pub to_remove : ℕ → Option String

unfoldable pub new_requests : ℕ → Requests
new_requests max_age = record {
  session_use_case = new_session_use_case max_age;
  to_remove = λ gs. none;
}

abbrev pub set_removal : (ℕ → Option String) → ℕ → Option String → ℕ → Option String
set_removal to_remove gs account other = if gs == other then account else to_remove other

abbrev pub with_store : Requests → SessionUseCase → Requests
with_store s uc = record s { session_use_case = uc }

-- Up to the verdict. A connection that has a key to remove is not at its next packet yet.
unfoldable pub validate_request : Requests → ℕ → ℕ → String → SessionKey → Bool × Requests
validate_request s gs now account requested = elim (s.to_remove gs) [
  | some busy ↦ (false, s)
  | none ↦
      let (valid, uc) = validate_session_key s.session_use_case now account requested in
      (
        valid,
        record {
          session_use_case = uc;
          to_remove = if valid then set_removal s.to_remove gs (some account) else s.to_remove;
        },
      )
]

-- The removal of the key that was validated.
unfoldable pub consume_key : Requests → ℕ → Requests
consume_key s gs = elim (s.to_remove gs) [
  | none ↦ s
  | some account ↦ record {
    session_use_case = (remove_session_key s.session_use_case account).1;
    to_remove = set_removal s.to_remove gs none;
  }
]
