-- ===== src/Inventory.antt =====
-- InventoryUseCase of internal/gameserver/usecase/inventory.go: putting equipment on and taking it
-- off, over the table of items and the registry of charged shots.
pub mod Worn
pub mod Effects
pub mod Frees
pub mod Conflicts
pub mod Cleared
pub mod Laws
pub mod Large
pub mod Sure
mod Tests
use l2go.Prelude.{
  ℕ, Bool, true, false, not, ◌&&◌, Option, none, some, List, [], ◌∷◌, ◌++◌, ◌==◌, if◌then◌else◌,
  nat_eq,
}
use l2go.Prelude.Int.{pos_part}
use l2go.Registry.Shots.{ChargedShots, clear_charged}
use l2go.Items.{
  Item, PaperdollSlot, slot_r_hand, slot_l_hand, slot_chest, slot_legs, body_part_to_paperdoll_slot,
  body_part_lr_ear, body_part_lr_finger, body_part_hair_all, is_dual_slot, is_two_handed,
  is_full_armor, is_equipped, equip, unequip,
}
use l2go.Items.Store.{
  Store, Outcome, ok, failed, Query, get_equipped_item, unequip_slot, equip_item_row,
}

-- What the use case works on.
pub record Bag : Type 0 where
  pub store : Store
  pub charged : ChargedShots

abbrev pub Action : Type 0 → Type 0
Action A = Bag → Outcome A × Bag

abbrev pub carry_on : {A B : Type 0} → (A → Action B) → Outcome A → Bag → Outcome B × Bag
carry_on f (ok a) b = f a b
carry_on f failed b = (failed, b)

infixl 20 ◌>>=◌
abbrev pub ◌>>=◌ : {A B : Type 0} → Action A → (A → Action B) → Action B
q >>= f = λ b. let (o, b') = q b in carry_on f o b'

abbrev pub return : {A : Type 0} → A → Action A
return a = λ b. (ok a, b)

abbrev pub fail : {A : Type 0} → Action A
fail = λ b. (failed, b)

abbrev pub lift : {A : Type 0} → Query A → Action A
lift q = λ b. let (o, s) = q b.store in (o, record b { store = s })

-- `item, err := …` where the caller takes an error for a missing item.
abbrev pub or_missing : Outcome (Option Item) → Option Item
or_missing (ok i) = i
or_missing failed = none

abbrev pub tolerant : Query (Option Item) → Action (Option Item)
tolerant q = λ b. let (o, s) = q b.store in (ok (or_missing o), record b { store = s })

-- A weapon loses its charges when it is taken off.
pub discharge : PaperdollSlot → Item → Action (List Item)
discharge slot item = λ b. (
  ok (unequip item ∷ []),
  if slot == slot_r_hand then record b { charged = clear_charged b.charged item.object_id } else b,
)

-- The changed items are reported, all as modified.
pub unequip_item : ℕ → Item → Action (List Item)
unequip_item char_id item =
    let slot = pos_part item.loc_data in
    if not (is_equipped item)
    then fail
    else (lift (unequip_slot char_id slot) >>= λ _. discharge slot item)

pub unequip_found : ℕ → Option Item → Action (List Item)
unequip_found char_id none = return []
unequip_found char_id (some existing) = unequip_item char_id existing

pub unequip_slot_if_occupied : ℕ → PaperdollSlot → Action (List Item)
unequip_slot_if_occupied char_id slot =
    lift (get_equipped_item char_id slot) >>= unequip_found char_id

-- The other slot of a pair, and the slot itself for a body part without one.
abbrev pub secondary_slot : ℕ → PaperdollSlot → PaperdollSlot
secondary_slot body_part primary =
    if body_part == body_part_lr_ear
    then 9
    else (if body_part == body_part_lr_finger
        then 14
        else (if body_part == body_part_hair_all then 3 else primary))

pub choose_slot : PaperdollSlot → PaperdollSlot → Option Item → Action PaperdollSlot
choose_slot primary secondary none = return secondary
choose_slot primary secondary (some i) = return primary

pub try_secondary : ℕ → PaperdollSlot → PaperdollSlot → Option Item → Action PaperdollSlot
try_secondary char_id primary secondary none = return primary
try_secondary char_id primary secondary (some i) =
    tolerant (get_equipped_item char_id secondary) >>= choose_slot primary secondary

pub find_dual_slot : ℕ → ℕ → PaperdollSlot → Action PaperdollSlot
find_dual_slot char_id body_part primary =
    if not (is_dual_slot body_part)
    then return primary
    else (tolerant (get_equipped_item char_id primary)
        >>= try_secondary char_id primary (secondary_slot body_part primary))

-- The two slots that a large item takes.
pub free_two : ℕ → PaperdollSlot → PaperdollSlot → Action (List Item)
free_two char_id first second = unequip_slot_if_occupied char_id first >>= λ changed.
    unequip_slot_if_occupied char_id second >>= λ changed2. return (changed ++ changed2)

-- `body_part_of` reads the template registry.
abbrev pub holds_two_handed : (ℕ → Option ℕ) → Option Item → Bool
holds_two_handed body_part_of none = false
holds_two_handed body_part_of (some i) = elim (body_part_of i.item_id) [
  | none ↦ false
  | some part ↦ is_two_handed part
]

pub drop_two_handed : (ℕ → Option ℕ) → ℕ → PaperdollSlot → Action (List Item)
drop_two_handed body_part_of char_id target =
    if target == slot_l_hand
    then (lift (get_equipped_item char_id slot_r_hand) >>= λ held.
        if holds_two_handed body_part_of held
        then unequip_slot_if_occupied char_id slot_r_hand
        else return [])
    else return []

-- The switch on slot conflicts, with the slot that the item then takes.
pub clear_conflicts : (ℕ → Option ℕ) → ℕ → ℕ → PaperdollSlot → Action (PaperdollSlot × List Item)
clear_conflicts body_part_of char_id body_part target =
    if is_two_handed body_part
    then (free_two char_id slot_l_hand slot_r_hand >>= λ changed. return (target, changed))
    else (if is_full_armor body_part
        then (free_two char_id slot_legs slot_chest >>= λ changed. return (target, changed))
        else (if is_dual_slot body_part
            then (find_dual_slot char_id body_part target >>= λ slot.
                unequip_slot_if_occupied char_id slot >>= λ changed. return (slot, changed))
            else (drop_two_handed body_part_of char_id target >>= λ changed.
                unequip_slot_if_occupied char_id target >>= λ changed2.
                return (target, changed ++ changed2))))

pub put_on : Item → PaperdollSlot × List Item → Action (List Item)
put_on item (slot, changed) =
    lift (equip_item_row item.object_id slot) >>= λ _. return (changed ++ equip item slot ∷ [])

pub equip_item : (ℕ → Option ℕ) → ℕ → Item → ℕ → Action (List Item)
equip_item body_part_of char_id item body_part = elim (body_part_to_paperdoll_slot body_part) [
  | none ↦ fail
  | some target ↦ clear_conflicts body_part_of char_id body_part target >>= put_on item
]

-- The answer is false when there is nothing to take off.
pub unequip_answer : ℕ → Option Item → Action (Bool × List Item)
unequip_answer char_id none = return (false, [])
unequip_answer char_id (some item) = unequip_item char_id item >>= λ changed. return (true, changed)

pub unequip_by_slot : ℕ → ℕ → Action (Bool × List Item)
unequip_by_slot char_id bitmask = elim (body_part_to_paperdoll_slot bitmask) [
  | none ↦ return (false, [])
  | some slot ↦ lift (get_equipped_item char_id slot) >>= unequip_answer char_id
]
