-- ===== src/Login/Clients/Accounts.antt =====
-- HandleAuthLogin of internal/loginserver/usecase/client.go, over the accounts of repo/postgres.go,
-- whose user names are unique. Any call may fail.
pub mod Laws
use l2go.Prelude.{
  ℕ, ◌+◌, ◌≡◌, Bool, true, false, ◌||◌, Option, none, some, List, [], ◌∷◌, ◌++◌, ◌==◌,
  if◌then◌else◌, String, string_eq, nat_eq, arith, Option-cases, inl, inr, refl,
}
use l2go.Prelude.Nested.{is_some}
use l2go.Prelude.Int.{ℤ, pos, negsuc}

-- The bcrypt library: a hash that it made of a password is accepted with that password.
pub record Bcrypt : Type 0 where
  pub compare_hash_and_password : String → String → Bool
  pub generate_from_password : ℕ → String → Option String
  pub accepts :
      (salt : ℕ) (password hash : String)
      → generate_from_password salt password ≡ some hash
      → compare_hash_and_password hash password ≡ true

pub record Account : Type 0 where
  pub id : ℕ
  pub username : String
  pub password : String
  pub access_level : ℤ
  pub last_server : ℕ

-- The rows, and the next number of the sequence of ids.
pub record AccountRepo : Type 0 where
  pub rows : List Account
  pub next_id : ℕ

unfoldable pub get_by_username : String → List Account → Option Account
get_by_username username [] = none
get_by_username username (account ∷ rows) =
    if string_eq.beq account.username username then some account else get_by_username username rows

-- `none` is an error: a call that failed, or a name that is taken.
unfoldable pub create_account : AccountRepo → Bool → Account → Option (Account × AccountRepo)
create_account repo fails account =
    let created = record account { id = repo.next_id } in
    if fails || is_some (get_by_username account.username repo.rows)
    then none
    else some (created, record { rows = repo.rows ++ created ∷ []; next_id = repo.next_id + 1 })

pub set_last_server : ℕ → ℕ → List Account → List Account
set_last_server id server_id [] = []
set_last_server id server_id (account ∷ rows) =
    (if account.id == id then record account { last_server = server_id } else account)
    ∷ set_last_server id server_id rows

unfoldable pub update_last_server : AccountRepo → ℕ → ℕ → AccountRepo
update_last_server repo id server_id = record repo { rows = set_last_server id server_id repo.rows }

pub data LoginError : Type 0 where
  account_banned account_not_found other_error : LoginError

pub data AuthLogin : Type 0 where
  logged_in : Account → AuthLogin
  refused : LoginError → AuthLogin

-- Which calls to the database fail.
pub record Faults : Type 0 where
  pub on_lookup : Bool
  pub on_create : Bool

-- ACCESS_LEVEL_BANNED.
abbrev pub is_banned : ℤ → Bool
is_banned (pos n) = false
is_banned (negsuc n) = n == 0

abbrev pub created_or_error : AccountRepo → Option (Account × AccountRepo) → AuthLogin × AccountRepo
created_or_error repo none = (refused other_error, repo)
created_or_error repo (some (account, repo')) = (logged_in account, repo')

module _ (bc : Bcrypt) where
  unfoldable pub check_login : Account → String → AuthLogin
  check_login account password =
      if is_banned account.access_level
      then refused account_banned
      else if bc.compare_hash_and_password account.password password
      then logged_in account
      else refused other_error

  abbrev pub sign_up : AccountRepo → Bool → String → Option String → AuthLogin × AccountRepo
  sign_up repo fails username none = (refused other_error, repo)
  sign_up repo fails username (some hash) = created_or_error repo (
      create_account repo fails (record {
        id = 0;
        username = username;
        password = hash;
        access_level = pos 0;
        last_server = 0;
      }))

  unfoldable pub handle_auth_login :
      Bool → AccountRepo → Faults → ℕ → String → String → AuthLogin × AccountRepo
  handle_auth_login auto_create repo faults salt username password =
      if faults.on_lookup
      then (refused account_not_found, repo)
      else elim (get_by_username username repo.rows) as (λ x. AuthLogin × AccountRepo) [
        | some account ↦ (check_login account password, repo)
        | none ↦
            if auto_create
            then sign_up repo faults.on_create username (bc.generate_from_password salt password)
            else (refused account_not_found, repo)
      ]
