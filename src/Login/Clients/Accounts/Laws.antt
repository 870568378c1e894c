-- ===== src/Login/Clients/Accounts/Laws.antt =====
-- A login that is granted, and the next one.
use l2go.Prelude.{
  ℕ, ◌+◌, ◌≡◌, ◌≢◌, refl, sym, ap, ◌∙◌, Bool, true, false, Option, none, some, List, [], ◌∷◌, ◌++◌,
  if◌then◌else◌, String, string_eq, nat_eq, arith,
}
use l2go.Login.Clients.Accounts.{
  Bcrypt, Account, AccountRepo, get_by_username, create_account, AuthLogin, LoginError, logged_in,
  refused, account_not_found, Faults, is_banned, check_login, created_or_error, sign_up,
  handle_auth_login,
}

get_by_username-append :
    (u : String) (rows : List Account) (account : Account)
    → get_by_username account.username rows ≡ none
    → get_by_username u (rows ++ account ∷ [])
      ≡ (if string_eq.beq account.username u then some account else get_by_username u rows)
unfolding get_by_username
get_by_username-append u [] account free = refl
get_by_username-append u (a ∷ rows) account free = ground (
  arith,
  free,
  get_by_username-append u rows account,
  string_eq.beq_iff account.username u,
  string_eq.beq_iff a.username u,
  string_eq.beq_iff a.username account.username,
)

get_by_username_name :
    (u : String) (rows : List Account) (account : Account)
    → get_by_username u rows ≡ some account
    → account.username ≡ u
unfolding get_by_username
get_by_username_name u [] account found = cc
get_by_username_name u (a ∷ rows) account found =
    ground (arith, found, get_by_username_name u rows account, string_eq.beq_iff a.username u)

refused≢logged_in : {e : LoginError} {account : Account} → refused e ≢ logged_in account
refused≢logged_in h = cc

logged_in-inj : {a b : Account} → logged_in a ≡ logged_in b → a ≡ b
logged_in-inj h = cc

create_account-fails :
    (repo : AccountRepo) (asked : Account)
    → created_or_error repo none ≡ created_or_error repo (create_account repo true asked)
unfolding create_account
create_account-fails repo asked = refl

create_account-free :
    (repo : AccountRepo) (asked : Account)
    → get_by_username asked.username repo.rows ≡ none
    → let created = record asked { id = repo.next_id } in
      create_account repo false asked
      ≡ some (created, record { rows = repo.rows ++ created ∷ []; next_id = repo.next_id + 1 })
unfolding create_account
create_account-free repo asked free = rw free refl

module _ (bc : Bcrypt) where
  -- A login that is granted is one of an account that is in the table afterwards under the name
  -- asked for, that is not banned, and whose hash accepts the password.
  abbrev pub Granted : AccountRepo → String → String → Account → Type 0
  Granted repo username password account =
      (get_by_username username repo.rows ≡ some account)
      × (account.username ≡ username)
      × (is_banned account.access_level ≡ false)
      × (bc.compare_hash_and_password account.password password ≡ true)

  check_login-Granted :
      (repo : AccountRepo) (username password : String) (found account : Account)
      → get_by_username username repo.rows ≡ some found
      → check_login bc found password ≡ logged_in account
      → Granted repo username password account
  unfolding check_login
  check_login-Granted repo username password found account there login =
      ground (arith, there, login, get_by_username_name username repo.rows found there)

  -- What a granted login leaves: the account, and every other name as before.
  abbrev pub Leaves : AccountRepo → AccountRepo → String → String → Account → Type 0
  Leaves repo repo' username password account =
      Granted repo' username password account
      × ((u : String)
          → get_by_username u repo'.rows
            ≡ (if string_eq.beq username u then some account else get_by_username u repo.rows))

  known-Leaves :
      (repo repo' : AccountRepo) (username password : String) (found account : Account)
      → get_by_username username repo.rows ≡ some found
      → check_login bc found password ≡ logged_in account
      → repo ≡ repo'
      → Leaves repo repo' username password account
  known-Leaves repo repo' username password found account there login same =
      let granted = check_login-Granted repo username password found account there login in
      rw (sym same) (granted, λ u. ground (arith, granted.0, string_eq.beq_iff username u))

  created-Leaves :
      (repo repo' : AccountRepo) (fails : Bool) (salt : ℕ) (password : String)
      (asked account : Account)
      → get_by_username asked.username repo.rows ≡ none
      → bc.generate_from_password salt password ≡ some asked.password
      → is_banned asked.access_level ≡ false
      → created_or_error repo (create_account repo fails asked) ≡ (logged_in account, repo')
      → Leaves repo repo' asked.username password account
  created-Leaves repo repo' true salt password asked account free hashed allowed login =
      absurd (refused≢logged_in (ap (λ p. p.0) (create_account-fails repo asked ∙ login)))
  created-Leaves repo repo' false salt password asked account free hashed allowed login =
      let created = record asked { id = repo.next_id } in
      let login' = sym (ap (created_or_error repo) (create_account-free repo asked free)) ∙ login in
      let is_created : account ≡ created = logged_in-inj (sym (ap (λ p. p.0) login')) in
      let rows : repo'.rows ≡ repo.rows ++ created ∷ [] = ap (λ p. p.1.rows) (sym login') in
      let found : (u : String)
          → get_by_username u repo'.rows ≡ (
              if string_eq.beq asked.username u
              then some created
              else get_by_username u repo.rows) =
        λ u. ap (get_by_username u) rows ∙ get_by_username-append u repo.rows created free in
      rw is_created (
        (
          ground (arith, found asked.username, string_eq.beq_iff asked.username asked.username),
          refl,
          allowed,
          bc.accepts salt password asked.password hashed,
        ),
        found,
      )

  sign_up-Leaves :
      (repo repo' : AccountRepo) (fails : Bool) (salt : ℕ) (username password : String)
      (hash : Option String) (account : Account)
      → get_by_username username repo.rows ≡ none
      → bc.generate_from_password salt password ≡ hash
      → sign_up bc repo fails username hash ≡ (logged_in account, repo')
      → Leaves repo repo' username password account
  sign_up-Leaves repo repo' fails salt username password none account free hashed login =
      absurd (refused≢logged_in (ap (λ p. p.0) login))
  sign_up-Leaves repo repo' fails salt username password (some hash) account free hashed login =
      created-Leaves repo repo' fails salt password _ account free hashed refl login

  -- The next login with the same name and password.
  handle_auth_login_again :
      (auto_create : Bool) (repo : AccountRepo) (faults : Faults) (salt : ℕ)
      (username password : String) (account : Account)
      → faults.on_lookup ≡ false
      → Granted repo username password account
      → handle_auth_login bc auto_create repo faults salt username password
        ≡ (logged_in account, repo)
  unfolding handle_auth_login check_login
  handle_auth_login_again auto_create repo faults salt username password account works granted =
      rw (works, granted.0, granted.2, granted.3, handle_auth_login) refl

  decided-Leaves :
      (repo repo' : AccountRepo) (faults : Faults) (salt : ℕ) (username password : String)
      (account : Account) (on_lookup : Bool) (found : Option Account) (auto_create : Bool)
      → get_by_username username repo.rows ≡ found
      → (if on_lookup
          then (refused account_not_found, repo)
          else elim found as (λ x. AuthLogin × AccountRepo) [
            | some known ↦ (check_login bc known password, repo)
            | none ↦
                if auto_create
                then sign_up bc repo faults.on_create username
                    (bc.generate_from_password salt password)
                else (refused account_not_found, repo)
          ])
        ≡ (logged_in account, repo')
      → Leaves repo repo' username password account
  decided-Leaves repo repo' faults salt username password account true found auto_create there
        login =
      absurd (refused≢logged_in (ap (λ p. p.0) login))
  decided-Leaves repo repo' faults salt username password account false (some known) auto_create
        there login =
      known-Leaves repo repo' username password known account there (ap (λ p. p.0) login)
        (ap (λ p. p.1) login)
  decided-Leaves repo repo' faults salt username password account false none true there login =
      sign_up-Leaves repo repo' faults.on_create salt username password _ account there refl login
  decided-Leaves repo repo' faults salt username password account false none false there login =
      absurd (refused≢logged_in (ap (λ p. p.0) login))

  -- A login that is granted is of an account that is in the table afterwards under the name asked for,
  -- is not banned, and has a hash that accepts the password; every other name is as before. Another
  -- login with the name and the password, while the look-up works, is granted the same account and
  -- changes nothing, also if this one made the account.
  pub handle_auth_login_sound :
      (auto_create auto_create' : Bool) (repo repo' : AccountRepo) (faults later : Faults)
      (salt salt' : ℕ) (username password : String) (account : Account)
      → handle_auth_login bc auto_create repo faults salt username password
        ≡ (logged_in account, repo')
      → later.on_lookup ≡ false
      → Leaves repo repo' username password account
        × (handle_auth_login bc auto_create' repo' later salt' username password
            ≡ (logged_in account, repo'))
  unfolding handle_auth_login
  handle_auth_login_sound auto_create auto_create' repo repo' faults later salt salt' username
        password account login works =
      let leaves : Leaves repo repo' username password account =
        decided-Leaves repo repo' faults salt username password account faults.on_lookup
          (get_by_username username repo.rows) auto_create refl login in
      (
        leaves,
        handle_auth_login_again auto_create' repo' later salt' username password account works
            leaves.0,
      )
