-- ===== src/Inventory/Laws.antt =====
-- Putting an item on keeps one item to a slot, and large items keep their other slot empty.
use l2go.Prelude.{
  ℕ, ◌+◌, ◌≤◌, ◌≡◌, refl, ◌∙◌, inl, inr, Bool, true, false, ◌&&◌, Option, some, List, [], ◌∷◌, ◌++◌,
  ◌==◌, nat_eq, arith, Option-cases,
}
use l2go.Items.{equip, Item, PaperdollSlot, body_part_to_paperdoll_slot}
use l2go.Items.Store.{Rows, Outcome, ok, failed, equip_item_row}
use l2go.Inventory.{Bag, carry_on, clear_conflicts, put_on, equip_item}
use l2go.Inventory.Worn.{worn_count, owner_of, owns, bit, worn_count-equip_row}
use l2go.Inventory.Effects.{rows_of}
use l2go.Inventory.Cleared.{Cleared, clear_conflicts-Cleared}
use l2go.Inventory.Conflicts.{clear_conflicts-Lessens}

-- No character wears two items in a slot.
abbrev pub OneWorn : Rows → Type 0
OneWorn r = (c : ℕ) (s : PaperdollSlot) → worn_count c s r ≤ 1

equip-more :
    (id : ℕ) (s : PaperdollSlot) (r : Rows) (fs : List Bool) (c : ℕ) (s' : PaperdollSlot)
    → worn_count c s' (equip_item_row id s (record { rows = r; faults = fs })).1.rows
      ≤ worn_count c s' r + bit (owns (owner_of id r) c && (s == s'))
unfolding equip_item_row
equip-more id s r [] c s' = worn_count-equip_row id c s s' r
equip-more id s r (true ∷ fs) c s' = omega arith
equip-more id s r (false ∷ fs) c s' = worn_count-equip_row id c s s' r

carry_on-rows :
    {A B : Type 0} (x : B) (o : Outcome A) (b : Bag)
    → rows_of (carry_on (λ _. λ b'. (ok x, b')) o b).1 ≡ rows_of b
carry_on-rows x (ok a) b = refl
carry_on-rows x failed b = refl

pub put_on-more :
    (item : Item) (slot : PaperdollSlot) (changed : List Item) (b : Bag) (c : ℕ) (s : PaperdollSlot)
    → worn_count c s (rows_of (put_on item (slot, changed) b).1)
      ≤ worn_count c s (rows_of b)
        + bit (owns (owner_of item.object_id (rows_of b)) c && (slot == s))
unfolding put_on
put_on-more item slot changed b c s =
    let (o, st) = equip_item_row item.object_id slot b.store in
    rw (carry_on-rows (changed ++ equip item slot ∷ []) o (record b { store = st }))
      (equip-more item.object_id slot b.store.rows b.store.faults c s)

carry_on-put_on :
    (item : Item) (c : ℕ) (o : Outcome (PaperdollSlot × List Item)) (b : Bag)
    → OneWorn (rows_of b)
    → owner_of item.object_id (rows_of b) ≡ some c
    → Cleared c o b
    → OneWorn (rows_of (carry_on (put_on item) o b).1)
carry_on-put_on item c failed b one mine cleared = one
carry_on-put_on item c (ok (slot, changed)) b one mine cleared =
    λ c' s. ground (arith, put_on-more item slot changed b c' s, one c' s, cleared, mine)

-- Whatever calls fail, putting on an item of the character's own leaves at most one item in every
-- slot of every character, if that held before.
pub equip_item-OneWorn :
    (part_of : ℕ → Option ℕ) (c : ℕ) (item : Item) (part : ℕ) (b : Bag)
    → OneWorn (rows_of b)
    → owner_of item.object_id (rows_of b) ≡ some c
    → OneWorn (rows_of (equip_item part_of c item part b).1)
unfolding equip_item
equip_item-OneWorn part_of c item part b one mine =
    elim (Option-cases (body_part_to_paperdoll_slot part)) [
      | inl missing ↦ rw (missing, equip_item) one
      | inr (target, found) ↦
          let lessens = clear_conflicts-Lessens part_of c part target in
          let (o, b') = clear_conflicts part_of c part target b in
          rw (found, equip_item)
            (carry_on-put_on item c o b' (λ c' s. omega (arith, lessens.fewer b c' s, one c' s))
              (lessens.owners b item.object_id ∙ mine)
              (clear_conflicts-Cleared part_of c part target b found))
    ]
