-- ===== src/Inventory/Worn.antt =====
-- How many items a character wears in a slot, and what each statement does to that number.
use l2go.Prelude.{
  ℕ, ◌+◌, ◌≤◌, ◌≡◌, refl, inl, inr, Bool, true, false, ◌&&◌, Option, none, some, [], ◌∷◌, ◌==◌,
  if◌then◌else◌, nat_eq, arith, Option-cases,
}
use l2go.Prelude.Dict.{lookup, insert, lookup-insert}
use l2go.Items.{Item, PaperdollSlot, equip, unequip}
use l2go.Items.Store.{Rows, worn, find_worn, unequip_rows, equip_row}

abbrev pub bit : Bool → ℕ
bit true = 1
bit false = 0

unfoldable pub worn_count : ℕ → PaperdollSlot → Rows → ℕ
worn_count c s [] = 0
worn_count c s ((id, i) ∷ r) = bit (worn c s i) + worn_count c s r

-- The owner of a row. No statement changes it.
abbrev pub owner : Option Item → Option ℕ
owner none = none
owner (some i) = some i.owner_id

abbrev pub owner_of : ℕ → Rows → Option ℕ
owner_of id r = owner (lookup id r)

pub find_worn-count :
    (c : ℕ) (s : PaperdollSlot) (r : Rows) → find_worn c s r ≡ none → worn_count c s r ≡ 0
unfolding find_worn worn_count
find_worn-count c s [] h = refl
find_worn-count c s ((id, i) ∷ r) h = ground (arith, find_worn-count c s r)

pub find_worn-worn :
    (c : ℕ) (s : PaperdollSlot) (r : Rows) (i : Item) → find_worn c s r ≡ some i → worn c s i ≡ true
unfolding find_worn
find_worn-worn c s [] i h = ground arith
find_worn-worn c s ((id, j) ∷ r) i h = ground (arith, find_worn-worn c s r i)

unequip-worn :
    (c c' s s' : ℕ) (i : Item)
    → bit (worn c' s' (if worn c s i then unequip i else i))
      ≡ (if c == c' && (s == s') then 0 else bit (worn c' s' i))
unequip-worn c c' s s' i = ground arith

pub worn_count-unequip_rows :
    (c c' : ℕ) (s s' : PaperdollSlot) (r : Rows)
    → worn_count c' s' (unequip_rows c s r)
      ≡ (if c == c' && (s == s') then 0 else worn_count c' s' r)
unfolding worn_count unequip_rows
worn_count-unequip_rows c c' s s' [] = ground arith
worn_count-unequip_rows c c' s s' ((id, i) ∷ r) =
    ground (arith, unequip-worn c c' s s' i, worn_count-unequip_rows c c' s s' r)

pub owner_of-unequip_rows :
    (c : ℕ) (s : PaperdollSlot) (id : ℕ) (r : Rows)
    → owner_of id (unequip_rows c s r) ≡ owner_of id r
unfolding lookup unequip_rows
owner_of-unequip_rows c s id [] = refl
owner_of-unequip_rows c s id ((j, i) ∷ r) = ground (arith, owner_of-unequip_rows c s id r)

abbrev pub owns : Option ℕ → ℕ → Bool
owns none c = false
owns (some o) c = o == c

equip-worn :
    (c s s' : ℕ) (i : Item) → bit (worn c s' (equip i s)) ≡ bit (i.owner_id == c && (s == s'))
equip-worn c s s' i = ground arith

insert-count :
    (id c : ℕ) (s s' : PaperdollSlot) (i : Item) (r : Rows)
    → lookup id r ≡ some i
    → worn_count c s' (insert id (equip i s) r)
      ≤ worn_count c s' r + bit (i.owner_id == c && (s == s'))
unfolding worn_count insert lookup
insert-count id c s s' i [] h = ground arith
insert-count id c s s' i ((j, k) ∷ r) h =
    ground (arith, equip-worn c s s' i, insert-count id c s s' i r)

-- The item counts in its new slot at most once more.
pub worn_count-equip_row :
    (id c : ℕ) (s s' : PaperdollSlot) (r : Rows)
    → worn_count c s' (equip_row id s r)
      ≤ worn_count c s' r + bit (owns (owner_of id r) c && (s == s'))
unfolding equip_row
worn_count-equip_row id c s s' r = elim (Option-cases (lookup id r)) [
  | inl missing ↦ rw (missing, equip_row) (omega arith)
  | inr (i, found) ↦ rw (found, equip_row) (insert-count id c s s' i r found)
]

pub owner_of-equip_row :
    (id j : ℕ) (s : PaperdollSlot) (r : Rows) → owner_of j (equip_row id s r) ≡ owner_of j r
unfolding equip_row
owner_of-equip_row id j s r = elim (Option-cases (lookup id r)) [
  | inl missing ↦ rw (missing, equip_row) refl
  | inr (i, found) ↦ rw (found, equip_row) (ground (arith, lookup-insert id j (equip i s) r))
]
