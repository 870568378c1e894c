-- ===== src/Registry/Connections.antt =====
-- ConnectionRegistry of internal/gameserver/registry/connections.go: the connection of each account.
-- Connections are pointers, none of them nil, and account names are any type with an equality.
pub mod Laws
mod Tests
use l2go.Prelude.{ℕ, Option, none, some, List, [], ◌∷◌, ◌==◌, if◌then◌else◌, length}
use l2go.Prelude.{Eq}
use l2go.Prelude.Dict.{Dict, lookup, insert, delete}

module _ {K : Type 0} ⦃e : Eq K⦄ where
  pub register : Dict K ℕ → K → ℕ → Dict K ℕ
  register cr account_name conn = insert account_name conn cr

  pub unregister : Dict K ℕ → K → Dict K ℕ
  unregister cr account_name = delete account_name cr

  pub get_connection : Dict K ℕ → K → Option ℕ
  get_connection cr account_name = lookup account_name cr

  pub unregister_if : Dict K ℕ → K → ℕ → Dict K ℕ
  unregister_if cr account_name conn = elim (lookup account_name cr) [
    | none ↦ cr
    | some current ↦ if current == conn then delete account_name cr else cr
  ]

  pub get_connection_count : Dict K ℕ → ℕ
  get_connection_count cr = length cr

  -- The connections that `broadcast_to_accounts` sends to, in order.
  pub broadcast_to_accounts : Dict K ℕ → List K → List ℕ
  broadcast_to_accounts cr [] = []
  broadcast_to_accounts cr (account_name ∷ account_names) =
      let rest = broadcast_to_accounts cr account_names in
      elim (lookup account_name cr) [ none ↦ rest | some conn ↦ conn ∷ rest ]
