-- ===== src/Registry/Connections/Laws.antt =====
-- Whose connection an account has, from the calls that were made.
use l2go.Prelude.{
  ℕ, ◌≡◌, refl, Bool, false, ◌||◌, Option, none, some, List, [], ◌∷◌, ◌==◌, if◌then◌else◌, arith,
}
use l2go.Prelude.{Eq}
use l2go.Prelude.Dict.{Dict, lookup, lookup-insert, lookup-delete}
use l2go.Registry.Connections.{
  register, unregister, get_connection, unregister_if, broadcast_to_accounts,
}

pub data Call (K : Type 0) : Type 0 where
  registers : K → ℕ → Call K
  unregisters : K → Call K
  cleans_up : K → ℕ → Call K

abbrev pub among : ℕ → List ℕ → Bool
among c [] = false
among c (d ∷ ds) = c == d || among c ds

abbrev unless : List ℕ → Option ℕ → Option ℕ
unless gone none = none
unless gone (some c) = if among c gone then none else some c

module _ {K : Type 0} ⦃e : Eq K⦄ where
  -- The registry after the calls, the last one first.
  pub after : List (Call K) → Dict K ℕ
  after [] = []
  after (registers k c ∷ us) = register (after us) k c
  after (unregisters k ∷ us) = unregister (after us) k
  after (cleans_up k c ∷ us) = unregister_if (after us) k c

  -- Back to the account's last login, whose connection is there unless it cleaned up since.
  pub online : K → List ℕ → List (Call K) → Option ℕ
  online k gone [] = none
  online k gone (registers j c ∷ us) =
      let rest = online k gone us in
      if e.beq j k then (if among c gone then none else some c) else rest
  online k gone (unregisters j ∷ us) =
      let rest = online k gone us in if e.beq j k then none else rest
  online k gone (cleans_up j c ∷ us) =
      let left = online k (c ∷ gone) us in
      let rest = online k gone us in if e.beq j k then left else rest

  lookup-unregister_if :
      (cr : Dict K ℕ) (k j : K) (c : ℕ)
      → lookup j (unregister_if cr k c)
        ≡ (if e.beq k j then unless (c ∷ []) (lookup j cr) else lookup j cr)
  unfolding unregister_if
  lookup-unregister_if cr k j c = grind (arith, e.beq_iff k j, lookup-delete k j cr)

  after-online :
      (k : K) (gone : List ℕ) (us : List (Call K))
      → unless gone (lookup k (after us)) ≡ online k gone us
  unfolding after online register unregister
  after-online k gone [] = unfold lookup in refl
  after-online k gone (registers j c ∷ us) =
      ground (arith, lookup-insert j k c (after us), after-online k gone us)
  after-online k gone (unregisters j ∷ us) =
      ground (arith, lookup-delete j k (after us), after-online k gone us)
  after-online k gone (cleans_up j c ∷ us) = ground (
    arith,
    lookup-unregister_if (after us) j k c,
    after-online k gone us,
    after-online k (c ∷ gone) us,
  )

  -- After any logins, logouts and cleanups of connections, an account has the connection of its last
  -- login, unless that one was removed since: the late cleanup of an older connection changes
  -- nothing.
  pub get_connection-after :
      (us : List (Call K)) (k : K) → get_connection (after us) k ≡ online k [] us
  unfolding get_connection
  get_connection-after us k = ground (arith, after-online k [] us)

  -- The connections of the accounts that are online, in order.
  pub onlines : List (Call K) → List K → List ℕ
  onlines us [] = []
  onlines us (k ∷ ks) =
      let rest = onlines us ks in elim (online k [] us) [ none ↦ rest | some c ↦ c ∷ rest ]

  -- After any logins, logouts and cleanups, a packet for some accounts goes to the connection of each
  -- one that is online, in the order they are named, and to no other.
  pub broadcast_to_accounts-after :
      (us : List (Call K)) (ks : List K) → broadcast_to_accounts (after us) ks ≡ onlines us ks
  unfolding broadcast_to_accounts onlines get_connection
  broadcast_to_accounts-after us [] = refl
  broadcast_to_accounts-after us (k ∷ ks) =
      grind (arith, get_connection-after us k, broadcast_to_accounts-after us ks)
