-- ===== src/Login/Counts/Sweep.antt =====
-- Maps with one entry for a key, and what the loops over them keep.
use l2go.Prelude.{
  ℕ, ◌≡◌, refl, Option, none, some, [], ◌∷◌, if◌then◌else◌, String, string_eq, nat_eq, Eq, arith,
}
use l2go.Prelude.Dict.{Dict, lookup, insert, delete, lookup-insert, lookup-delete}
use l2go.Prelude.Nested.{Nested, or_empty}
use l2go.Login.Counts.{CountInfo, is_old, keep, sweep, drop_old}

-- Go maps have one entry for a key.
abbrev pub Distinct {ℓ κ} : {K : Type ℓ} {V : Type κ} → ⦃e : Eq K⦄ → Dict K V → Type κ
Distinct [] = Unit
Distinct ((k, v) ∷ m) = (lookup k m ≡ none) × Distinct m

pub insert-Distinct :
    {K : Type 0} {V : Type 0}
    → ⦃e : Eq K⦄ → (k : K) (v : V) (m : Dict K V) → Distinct m
    → Distinct (insert k v m)
unfolding insert lookup
insert-Distinct ⦃e⦄ k v [] d = ground arith
insert-Distinct ⦃e⦄ k v ((j, w) ∷ m) d =
    ground (arith, e.beq_iff j k, e.beq_iff k j, lookup-insert k j v m, insert-Distinct k v m d.1)

pub delete-Distinct :
    {K : Type 0} {V : Type 0}
    → ⦃e : Eq K⦄ → (k : K) (m : Dict K V) → Distinct m
    → Distinct (delete k m)
unfolding delete
delete-Distinct ⦃e⦄ k [] d = tt
delete-Distinct ⦃e⦄ k ((j, w) ∷ m) d = ground (arith, lookup-delete k j m, delete-Distinct k m d.1)

-- A report that is old at `now`.
abbrev pub fresh : Option CountInfo → ℕ → ℕ → Option CountInfo
fresh none ttl now = none
fresh (some info) ttl now = if is_old info ttl now then none else some info

pub lookup-drop_old :
    (ttl now k : ℕ) (s : Dict ℕ CountInfo)
    → Distinct s
    → lookup k (drop_old ttl now s) ≡ fresh (lookup k s) ttl now
unfolding drop_old lookup
lookup-drop_old ttl now k [] d = refl
lookup-drop_old ttl now k ((j, info) ∷ s) d = ground (arith, lookup-drop_old ttl now k s d.1)

pub drop_old-Distinct :
    (ttl now : ℕ) (s : Dict ℕ CountInfo) → Distinct s → Distinct (drop_old ttl now s)
unfolding drop_old
drop_old-Distinct ttl now [] d = tt
drop_old-Distinct ttl now ((j, info) ∷ s) d =
    ground (arith, lookup-drop_old ttl now j s d.1, drop_old-Distinct ttl now s d.1)

sweep-missing :
    (f : Dict ℕ CountInfo → Dict ℕ CountInfo) (a : String) (m : Nested String ℕ CountInfo)
    → lookup a m ≡ none
    → lookup a (sweep f m) ≡ none
unfolding sweep keep lookup
sweep-missing f a [] h = refl
sweep-missing f a ((b, s) ∷ m) h = ground (arith, sweep-missing f a m)

pub lookup-sweep :
    (f : Dict ℕ CountInfo → Dict ℕ CountInfo) (a : String) (m : Nested String ℕ CountInfo)
    → f [] ≡ []
    → Distinct m
    → or_empty (lookup a (sweep f m)) ≡ f (or_empty (lookup a m))
unfolding sweep keep lookup
lookup-sweep f a [] e d = ground arith
lookup-sweep f a ((b, s) ∷ m) e d =
    ground (arith, string_eq.beq_iff b a, sweep-missing f a m, lookup-sweep f a m e d.1)

pub sweep-Distinct :
    (f : Dict ℕ CountInfo → Dict ℕ CountInfo) (m : Nested String ℕ CountInfo)
    → Distinct m
    → Distinct (sweep f m)
unfolding sweep keep
sweep-Distinct f [] d = tt
sweep-Distinct f ((b, s) ∷ m) d = ground (arith, sweep-missing f b m, sweep-Distinct f m d.1)
