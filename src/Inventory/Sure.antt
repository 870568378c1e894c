-- ===== src/Inventory/Sure.antt =====
-- Without failing calls, equipping goes through.
use l2go.Prelude.{
  ℕ, ◌≡◌, refl, inl, inr, Bool, true, false, not, Option, none, some, List, [], ◌∷◌, ◌++◌, ◌==◌,
  if◌then◌else◌, arith, Option-cases,
}
use l2go.Items.{
  equip, Item, PaperdollSlot, slot_r_hand, slot_l_hand, slot_chest, slot_legs, is_dual_slot,
  is_two_handed, is_full_armor, body_part_to_paperdoll_slot,
}
use l2go.Items.Store.{
  Rows, Outcome, ok, failed, worn, find_worn, get_equipped_item, unequip_slot, equip_item_row,
}
use l2go.Registry.Shots.{ChargedShots}
use l2go.Inventory.{
  Bag, Action, carry_on, ◌>>=◌, return, lift, tolerant, discharge, unequip_item, unequip_found,
  unequip_slot_if_occupied, find_dual_slot, try_secondary, choose_slot, secondary_slot, free_two,
  drop_two_handed, holds_two_handed, clear_conflicts, put_on, equip_item,
}
use l2go.Inventory.Worn.{find_worn-worn}
use l2go.Inventory.Frees.{worn-slot}
use l2go.Inventory.Conflicts.{then_return, two_case, dual_case, single_case}

-- A result, with no failure left over.
abbrev pub Done : {A : Type 0} → Outcome A → Bag → Type 0
Done (ok a) b = b.store.faults ≡ []
Done failed b = ⊥

abbrev pub Sure : {A : Type 0} → Action A → Type 0
Sure q = (b : Bag) → b.store.faults ≡ [] → Done (q b).0 (q b).1

return-Sure : {A : Type 0} (a : A) → Sure (return a)
return-Sure a b h = h

carry_on-Done :
    {A B : Type 0} (f : A → Action B) (o : Outcome A) (b : Bag)
    → Done o b
    → ((a : A) → Sure (f a))
    → Done (carry_on f o b).0 (carry_on f o b).1
carry_on-Done f (ok a) b d h = h a b d
carry_on-Done f failed b d h = absurd d

bind-Sure :
    {A B : Type 0} (q : Action A) (f : A → Action B)
    → Sure q
    → ((a : A) → Sure (f a))
    → Sure (q >>= f)
bind-Sure q f hq hf b e = carry_on-Done f (q b).0 (q b).1 (hq b e) hf

if-Sure : {A : Type 0} (t : Bool) (q q' : Action A) → Sure q → Sure q' → Sure (if t then q else q')
if-Sure true q q' h h' = h
if-Sure false q q' h h' = h'

get-Done :
    (c : ℕ) (s : PaperdollSlot) (r : Rows) (fs : List Bool) (k : ChargedShots)
    → fs ≡ []
    → let (o, st) = get_equipped_item c s (record { rows = r; faults = fs }) in
      Done o (record { store = st; charged = k })
unfolding get_equipped_item
get-Done c s r [] k e = refl
get-Done c s r (f ∷ fs) k e = ground arith

get-Sure : (c : ℕ) (s : PaperdollSlot) → Sure (lift (get_equipped_item c s))
get-Sure c s b e = get-Done c s b.store.rows b.store.faults b.charged e

tolerant-Done :
    (c : ℕ) (s : PaperdollSlot) (r : Rows) (fs : List Bool)
    → fs ≡ []
    → (get_equipped_item c s (record { rows = r; faults = fs })).1.faults ≡ []
unfolding get_equipped_item
tolerant-Done c s r [] e = refl
tolerant-Done c s r (f ∷ fs) e = ground arith

tolerant-Sure : (c : ℕ) (s : PaperdollSlot) → Sure (tolerant (get_equipped_item c s))
tolerant-Sure c s b e = tolerant-Done c s b.store.rows b.store.faults e

equip-Done :
    (id : ℕ) (s : PaperdollSlot) (r : Rows) (fs : List Bool) (k : ChargedShots)
    → fs ≡ []
    → let (o, st) = equip_item_row id s (record { rows = r; faults = fs }) in
      Done o (record { store = st; charged = k })
unfolding equip_item_row
equip-Done id s r [] k e = refl
equip-Done id s r (f ∷ fs) k e = ground arith

put_on-Sure : (item : Item) (p : PaperdollSlot × List Item) → Sure (put_on item p)
unfolding put_on
put_on-Sure item (slot, changed) =
    bind-Sure (lift (equip_item_row item.object_id slot))
      (λ _. return (changed ++ equip item slot ∷ []))
      (λ b e. equip-Done item.object_id slot b.store.rows b.store.faults b.charged e)
      λ _. return-Sure (changed ++ equip item slot ∷ [])

unequip-Done :
    (c : ℕ) (s : PaperdollSlot) (i : Item) (r : Rows) (fs : List Bool) (k : ChargedShots)
    → fs ≡ []
    → let (o, st) = unequip_slot c s (record { rows = r; faults = fs }) in
      let (o', b) = carry_on (λ _. discharge s i) o (record { store = st; charged = k }) in
      Done o' b
unfolding unequip_slot discharge
unequip-Done c s i r [] k e = ground arith
unequip-Done c s i r (f ∷ fs) k e = ground arith

unequip_item-Sure :
    (c : ℕ) (s : PaperdollSlot) (i : Item) → worn c s i ≡ true → Sure (unequip_item c i)
unfolding unequip_item
unequip_item-Sure c s i h b e =
    let (equipped, slot) = worn-slot c s i h in
    rw (equipped, slot) (unequip-Done c s i b.store.rows b.store.faults b.charged e)

occupied-Done :
    (c : ℕ) (s : PaperdollSlot) (r : Rows) (fs : List Bool) (k : ChargedShots)
    → fs ≡ []
    → let (o, st) = get_equipped_item c s (record { rows = r; faults = fs }) in
      let (o', b) = carry_on (unequip_found c) o (record { store = st; charged = k }) in Done o' b
unfolding get_equipped_item unequip_found
occupied-Done c s r (f ∷ fs) k e = ground arith
occupied-Done c s r [] k e = elim (Option-cases (find_worn c s r)) [
  | inl missing ↦ rw (missing, unequip_found) refl
  | inr (i, found) ↦
      let b : Bag = record { store = record { rows = r; faults = [] }; charged = k } in
      rw (found, unequip_found) (unequip_item-Sure c s i (find_worn-worn c s r i found) b refl)
]

unequip_slot_if_occupied-Sure : (c : ℕ) (s : PaperdollSlot) → Sure (unequip_slot_if_occupied c s)
unfolding unequip_slot_if_occupied
unequip_slot_if_occupied-Sure c s b e = occupied-Done c s b.store.rows b.store.faults b.charged e

then_return-Sure :
    {A : Type 0} (q : Action (List Item)) (g : List Item → A) → Sure q → Sure (then_return q g)
then_return-Sure q g h =
    bind-Sure q (λ changed. return (g changed)) h λ changed. return-Sure (g changed)

free_two-Sure : (c : ℕ) (s s' : PaperdollSlot) → Sure (free_two c s s')
unfolding free_two
free_two-Sure c s s' =
    bind-Sure (unequip_slot_if_occupied c s)
      (λ changed. then_return (unequip_slot_if_occupied c s') (λ changed2. changed ++ changed2))
      (unequip_slot_if_occupied-Sure c s)
      λ changed.
        then_return-Sure (unequip_slot_if_occupied c s') (λ changed2. changed ++ changed2)
          (unequip_slot_if_occupied-Sure c s')

choose_slot-Sure : (s s' : PaperdollSlot) (o : Option Item) → Sure (choose_slot s s' o)
unfolding choose_slot
choose_slot-Sure s s' none = return-Sure s'
choose_slot-Sure s s' (some i) = return-Sure s

try_secondary-Sure :
    (c : ℕ) (s s' : PaperdollSlot) (o : Option Item) → Sure (try_secondary c s s' o)
unfolding try_secondary
try_secondary-Sure c s s' none = return-Sure s
try_secondary-Sure c s s' (some i) =
    bind-Sure (tolerant (get_equipped_item c s')) (choose_slot s s') (tolerant-Sure c s')
      (choose_slot-Sure s s')

find_dual_slot-Sure : (c part : ℕ) (s : PaperdollSlot) → Sure (find_dual_slot c part s)
unfolding find_dual_slot
find_dual_slot-Sure c part s =
    let s' = secondary_slot part s in
    if-Sure (not (is_dual_slot part)) (return s)
      (tolerant (get_equipped_item c s) >>= try_secondary c s s') (return-Sure s)
      (bind-Sure (tolerant (get_equipped_item c s)) (try_secondary c s s') (tolerant-Sure c s)
        (try_secondary-Sure c s s'))

drop_two_handed-Sure :
    (part_of : ℕ → Option ℕ) (c : ℕ) (s : PaperdollSlot) → Sure (drop_two_handed part_of c s)
unfolding drop_two_handed
drop_two_handed-Sure part_of c s =
    let next : Option Item → Action (List Item) = λ held.
      if holds_two_handed part_of held then unequip_slot_if_occupied c slot_r_hand else return [] in
    if-Sure (s == slot_l_hand) (lift (get_equipped_item c slot_r_hand) >>= next) (return [])
      (bind-Sure (lift (get_equipped_item c slot_r_hand)) next (get-Sure c slot_r_hand) λ held.
        if-Sure (holds_two_handed part_of held) (unequip_slot_if_occupied c slot_r_hand) (return [])
          (unequip_slot_if_occupied-Sure c slot_r_hand) (return-Sure {A = List Item} []))
      (return-Sure {A = List Item} [])

clear_conflicts-Sure :
    (part_of : ℕ → Option ℕ) (c part : ℕ) (target : PaperdollSlot)
    → Sure (clear_conflicts part_of c part target)
unfolding clear_conflicts
clear_conflicts-Sure part_of c part target =
    let two : (s s' : PaperdollSlot) → Sure (two_case c s s' target) = λ s s'.
      then_return-Sure (free_two c s s') (λ changed. (target, changed)) (free_two-Sure c s s') in
    if-Sure (is_two_handed part) (two_case c slot_l_hand slot_r_hand target)
      (if is_full_armor part
        then two_case c slot_legs slot_chest target
        else (if is_dual_slot part then dual_case c part target else single_case part_of c target))
      (two slot_l_hand slot_r_hand)
      (if-Sure (is_full_armor part) (two_case c slot_legs slot_chest target)
        (if is_dual_slot part then dual_case c part target else single_case part_of c target)
        (two slot_legs slot_chest)
        (if-Sure (is_dual_slot part) (dual_case c part target) (single_case part_of c target)
          (bind-Sure (find_dual_slot c part target)
            (λ slot. then_return (unequip_slot_if_occupied c slot) (λ changed. (slot, changed)))
            (find_dual_slot-Sure c part target)
            λ slot.
              then_return-Sure (unequip_slot_if_occupied c slot) (λ changed. (slot, changed))
                (unequip_slot_if_occupied-Sure c slot))
          (bind-Sure (drop_two_handed part_of c target)
            (λ changed.
              then_return (unequip_slot_if_occupied c target)
                (λ changed2. (target, changed ++ changed2)))
            (drop_two_handed-Sure part_of c target)
            λ changed.
              then_return-Sure (unequip_slot_if_occupied c target)
                (λ changed2. (target, changed ++ changed2))
                (unequip_slot_if_occupied-Sure c target))))

-- Without a failing call, putting on an item whose body part has a slot succeeds.
pub equip_item-Sure :
    (part_of : ℕ → Option ℕ) (c : ℕ) (item : Item) (part : ℕ) (target : PaperdollSlot) (b : Bag)
    → body_part_to_paperdoll_slot part ≡ some target
    → b.store.faults ≡ []
    → let (o, b') = equip_item part_of c item part b in Done o b'
unfolding equip_item
equip_item-Sure part_of c item part target b found e =
    rw (found, equip_item)
      (bind-Sure (clear_conflicts part_of c part target) (put_on item)
        (clear_conflicts-Sure part_of c part target) (put_on-Sure item) b e)
