-- ===== src/Items/Store.antt =====
-- The table character_items, keyed by object id, and the calls of repo/postgres_items.go on it. A
-- call may fail, and then changes nothing: `faults` says of each coming call whether it fails.
use l2go.Prelude.{
  ◌≡◌, inl, inr, arith, Option-cases, ℕ, Bool, true, false, ◌&&◌, Option, none, some, List, [], ◌∷◌,
  ◌==◌, if◌then◌else◌, nat_eq,
}
use l2go.Prelude.Dict.{Dict, lookup, insert, delete, lookup-insert}
use l2go.Prelude.Int.{ℤ, pos, negsuc}
use l2go.Items.{Item, PaperdollSlot, loc_paperdoll, loc_beq, equip, unequip}

abbrev pub Rows : Type 0
Rows = Dict ℕ Item

-- The table, and the failures to come. When the list is used up, no call fails.
pub record Store : Type 0 where
  pub rows : Rows
  pub faults : List Bool

-- An `error` value is not looked at by any caller, only passed on.
pub data Outcome {ℓ} (A : Type ℓ) : Type ℓ where
  ok : A → Outcome A
  failed : Outcome A

abbrev pub Query : Type 0 → Type 0
Query A = Store → Outcome A × Store

abbrev pub carry_on : {A B : Type 0} → (A → Query B) → Outcome A → Store → Outcome B × Store
carry_on f (ok a) s = f a s
carry_on f failed s = (failed, s)

infixl 20 ◌>>=◌
abbrev pub ◌>>=◌ : {A B : Type 0} → Query A → (A → Query B) → Query B
q >>= f = λ s. let (o, s') = q s in carry_on f o s'

abbrev pub return : {A : Type 0} → A → Query A
return a = λ s. (ok a, s)

abbrev pub fail : {A : Type 0} → Query A
fail = λ s. (failed, s)

-- One statement sent to the database.
abbrev pub answer : {A : Type 0} → (Rows → A × Rows) → Rows → List Bool → Outcome A × Store
answer f r (true ∷ fs) = (failed, record { rows = r; faults = fs })
answer f r (false ∷ fs) = let (a, r') = f r in (ok a, record { rows = r'; faults = fs })
answer f r [] = let (a, r') = f r in (ok a, record { rows = r'; faults = [] })

abbrev pub call : {A : Type 0} → (Rows → A × Rows) → Query A
call f = λ s. answer f s.rows s.faults

unfoldable pub get_by_object_id : ℕ → Query (Option Item)
get_by_object_id id = call (λ r. (lookup id r, r))

-- `UPDATE … WHERE object_id = $1`: the owner and the template stay, and a missing row stays missing.
abbrev pub write : Item → Item → Item
write i old = record old {
  count = i.count;
  loc = i.loc;
  loc_data = i.loc_data;
  enchant_level = i.enchant_level;
}

unfoldable pub update_row : Item → Rows → Rows
update_row i r = elim (lookup i.object_id r) [
  | none ↦ r
  | some old ↦ insert i.object_id (write i old) r
]

unfoldable pub update : Item → Query (Unit {0})
update i = call (λ r. (tt, update_row i r))

unfoldable pub delete_item : ℕ → Query (Unit {0})
delete_item id = call (λ r. (tt, delete id r))

abbrev int_beq : ℤ → ℤ → Bool
int_beq (pos a) (pos b) = a == b
int_beq (negsuc a) (negsuc b) = a == b
int_beq _ _ = false

-- `owner_id = $1 AND loc = 'PAPERDOLL' AND loc_data = $2`.
abbrev pub worn : ℕ → PaperdollSlot → Item → Bool
worn char_id slot i =
    i.owner_id == char_id && loc_beq i.loc loc_paperdoll && int_beq i.loc_data (pos slot)

-- QueryRow reads the first row of the result.
unfoldable pub find_worn : ℕ → PaperdollSlot → Rows → Option Item
find_worn char_id slot [] = none
find_worn char_id slot ((id, i) ∷ r) =
    if worn char_id slot i then some i else find_worn char_id slot r

unfoldable pub get_equipped_item : ℕ → PaperdollSlot → Query (Option Item)
get_equipped_item char_id slot = call (λ r. (find_worn char_id slot r, r))

unfoldable pub unequip_rows : ℕ → PaperdollSlot → Rows → Rows
unequip_rows char_id slot [] = []
unequip_rows char_id slot ((id, i) ∷ r) =
    (id, if worn char_id slot i then unequip i else i) ∷ unequip_rows char_id slot r

unfoldable pub unequip_slot : ℕ → PaperdollSlot → Query (Unit {0})
unequip_slot char_id slot = call (λ r. (tt, unequip_rows char_id slot r))

unfoldable pub equip_row : ℕ → PaperdollSlot → Rows → Rows
equip_row id slot r = elim (lookup id r) [ none ↦ r | some i ↦ insert id (equip i slot) r ]

unfoldable pub equip_item_row : ℕ → PaperdollSlot → Query (Unit {0})
equip_item_row id slot = call (λ r. (tt, equip_row id slot r))

abbrev pub written : Item → Option Item → Option Item
written i none = none
written i (some old) = some (write i old)

pub lookup-update_row :
    (i : Item) (j : ℕ) (r : Rows)
    → lookup j (update_row i r) ≡ (if i.object_id == j then written i (lookup j r) else lookup j r)
unfolding update_row
lookup-update_row i j r = elim (Option-cases (lookup i.object_id r)) [
  | inl missing ↦ rw (missing, update_row) (ground arith)
  | inr (old, found) ↦
      rw (found, update_row) (ground (arith, lookup-insert i.object_id j (write i old) r))
]

-- A row stands under its own object id.
abbrev pub Keyed : Rows → Type 0
Keyed r = (id : ℕ) (i : Item) → lookup id r ≡ some i → i.object_id ≡ id
