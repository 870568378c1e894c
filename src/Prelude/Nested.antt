-- ===== src/Prelude/Nested.antt =====
-- Go maps of maps, `map[K]map[J]V`, as the registries keep them: a write makes the inner map when
-- it is missing, and a delete that empties an inner map removes it.
use mathlib.Core.Path.{◌≡◌, refl}
use mathlib.Core.Logic.{inl, inr}
use mathlib.Core.Bool.{Bool, true, false, ◌&&◌}
use mathlib.Core.List.{List, [], ◌∷◌}
use mathlib.Core.Option.{Option, none, some}
use native.Mathlib.Omega.{arith}
use l2go.Prelude.Tests.{if◌then◌else◌, Option-cases}
use l2go.Prelude.Keys.{Eq}
use l2go.Prelude.Dict.{Dict, lookup, insert, delete, lookup-insert, lookup-delete}

abbrev pub Nested {ℓ κ μ} : Type ℓ → Type κ → Type μ → Type (ℓ ⊔ κ ⊔ μ)
Nested K J V = Dict K (Dict J V)

-- `len(m) == 0`.
abbrev pub is_empty {ℓ} : {A : Type ℓ} → List A → Bool
is_empty [] = true
is_empty (x ∷ xs) = false

-- `m[k]`, where a missing key gives the nil map, which reads as empty.
abbrev pub or_empty {ℓ} : {A : Type ℓ} → Option (List A) → List A
or_empty none = []
or_empty (some m) = m

abbrev pub is_some {ℓ} : {A : Type ℓ} → Option A → Bool
is_some none = false
is_some (some a) = true

abbrev pub keys {ℓ κ} : {K : Type ℓ} {V : Type κ} → Dict K V → List K
keys [] = []
keys ((k, v) ∷ m) = k ∷ keys m

module _ {ℓ} {K : Type ℓ} ⦃e : Eq K⦄ where
  unfoldable pub contains : List K → K → Bool
  contains [] k = false
  contains (j ∷ js) k = if e.beq j k then true else contains js k

  pub contains-keys {κ} :
      {V : Type κ} (m : Dict K V) (k : K) → contains (keys m) k ≡ is_some (lookup k m)
  unfolding contains lookup
  contains-keys [] k = refl
  contains-keys ((j, v) ∷ m) k = ground (arith, contains-keys m k)

module _ {ℓ κ μ} {K : Type ℓ} {J : Type κ} {V : Type μ} ⦃e : Eq K⦄ ⦃d : Eq J⦄ where
  unfoldable pub nested_lookup : K → J → Nested K J V → Option V
  nested_lookup k j m = lookup j (or_empty (lookup k m))

  unfoldable pub nested_insert : K → J → V → Nested K J V → Nested K J V
  nested_insert k j v m = insert k (insert j v (or_empty (lookup k m))) m

  abbrev put_back : K → Dict J V → Nested K J V → Nested K J V
  put_back k s m = if is_empty s then delete k m else insert k s m

  unfoldable pub nested_delete : K → J → Nested K J V → Nested K J V
  nested_delete k j m = elim (lookup k m) [ none ↦ m | some s ↦ put_back k (delete j s) m ]

  pub nested_lookup-insert :
      (k k' : K) (j j' : J) (v : V) (m : Nested K J V)
      → nested_lookup k' j' (nested_insert k j v m)
        ≡ (if e.beq k k' && d.beq j j' then some v else nested_lookup k' j' m)
  unfolding nested_lookup nested_insert
  nested_lookup-insert k k' j j' v m = ground (
    arith,
    e.beq_iff k k',
    d.beq_iff j j',
    lookup-insert k k' (insert j v (or_empty (lookup k m))) m,
    lookup-insert j j' v (or_empty (lookup k m)),
  )

  put_back_lem :
      (k k' : K) (j' : J) (s : Dict J V) (m : Nested K J V)
      → lookup j' (or_empty (lookup k' (put_back k s m)))
        ≡ (if e.beq k k' then lookup j' s else nested_lookup k' j' m)
  unfolding nested_lookup lookup
  put_back_lem k k' j' [] m = ground (arith, lookup-delete k k' m)
  put_back_lem k k' j' (x ∷ s) m = ground (arith, lookup-insert k k' (x ∷ s) m)

  pub nested_lookup-delete :
      (k k' : K) (j j' : J) (m : Nested K J V)
      → nested_lookup k' j' (nested_delete k j m)
        ≡ (if e.beq k k' && d.beq j j' then none else nested_lookup k' j' m)
  unfolding nested_lookup nested_delete lookup
  nested_lookup-delete k k' j j' m = elim (Option-cases (lookup k m)) [
    | inl missing ↦ rw (missing, nested_delete) (ground (arith, e.beq_iff k k'))
    | inr (s, found) ↦
        rw (found, nested_delete)
          (ground
            (arith, e.beq_iff k k', put_back_lem k k' j' (delete j s) m, lookup-delete j j' s))
  ]

  -- `delete(m, k)` of a whole inner map.
  pub nested_lookup-drop :
      (k k' : K) (j : J) (m : Nested K J V)
      → nested_lookup k' j (delete k m) ≡ (if e.beq k k' then none else nested_lookup k' j m)
  unfolding nested_lookup lookup
  nested_lookup-drop k k' j m = ground (arith, lookup-delete k k' m)
