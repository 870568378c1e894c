-- ===== src/Inventory/Conflicts.antt =====
-- The switch on slot conflicts makes no slot fuller and empties the slots that the item takes.
use l2go.Prelude.{ℕ, not, Option, none, some, List, [], ◌++◌, ◌==◌, if◌then◌else◌, nat_eq}
use l2go.Items.{
  Item, PaperdollSlot, slot_r_hand, slot_l_hand, slot_chest, slot_legs, is_dual_slot, is_two_handed,
  is_full_armor,
}
use l2go.Items.Store.{get_equipped_item}
use l2go.Inventory.{
  Action, ◌>>=◌, return, lift, tolerant, unequip_slot_if_occupied, find_dual_slot, try_secondary,
  choose_slot, secondary_slot, free_two, drop_two_handed, holds_two_handed, clear_conflicts,
}
use l2go.Inventory.Effects.{
  Lessens, return-Lessens, bind-Lessens, if-Lessens, get-Lessens, tolerant-Lessens,
  unequip_slot_if_occupied-Lessens,
}

-- Taking off, and giving the list of changes on.
abbrev pub then_return : {A : Type 0} → Action (List Item) → (List Item → A) → Action A
then_return q g = q >>= λ changed. return (g changed)

pub then_return-Lessens :
    {A : Type 0} (q : Action (List Item)) (g : List Item → A)
    → Lessens q
    → Lessens (then_return q g)
then_return-Lessens q g h =
    bind-Lessens q (λ changed. return (g changed)) h λ changed. return-Lessens (g changed)

pub free_two-Lessens : (c : ℕ) (s s' : PaperdollSlot) → Lessens (free_two c s s')
unfolding free_two
free_two-Lessens c s s' =
    bind-Lessens (unequip_slot_if_occupied c s)
      (λ changed. then_return (unequip_slot_if_occupied c s') (λ changed2. changed ++ changed2))
      (unequip_slot_if_occupied-Lessens c s)
      λ changed.
        then_return-Lessens (unequip_slot_if_occupied c s') (λ changed2. changed ++ changed2)
          (unequip_slot_if_occupied-Lessens c s')

choose_slot-Lessens : (s s' : PaperdollSlot) (o : Option Item) → Lessens (choose_slot s s' o)
unfolding choose_slot
choose_slot-Lessens s s' none = return-Lessens s'
choose_slot-Lessens s s' (some i) = return-Lessens s

try_secondary-Lessens :
    (c : ℕ) (s s' : PaperdollSlot) (o : Option Item) → Lessens (try_secondary c s s' o)
unfolding try_secondary
try_secondary-Lessens c s s' none = return-Lessens s
try_secondary-Lessens c s s' (some i) =
    bind-Lessens (tolerant (get_equipped_item c s')) (choose_slot s s') (tolerant-Lessens c s')
      (choose_slot-Lessens s s')

find_dual_slot-Lessens : (c part : ℕ) (s : PaperdollSlot) → Lessens (find_dual_slot c part s)
unfolding find_dual_slot
find_dual_slot-Lessens c part s =
    let s' = secondary_slot part s in
    if-Lessens (not (is_dual_slot part)) (return s)
      (tolerant (get_equipped_item c s) >>= try_secondary c s s') (return-Lessens s)
      (bind-Lessens (tolerant (get_equipped_item c s)) (try_secondary c s s') (tolerant-Lessens c s)
        (try_secondary-Lessens c s s'))

drop_two_handed-Lessens :
    (part_of : ℕ → Option ℕ) (c : ℕ) (s : PaperdollSlot) → Lessens (drop_two_handed part_of c s)
unfolding drop_two_handed
drop_two_handed-Lessens part_of c s =
    let next : Option Item → Action (List Item) = λ held.
      if holds_two_handed part_of held then unequip_slot_if_occupied c slot_r_hand else return [] in
    if-Lessens (s == slot_l_hand) (lift (get_equipped_item c slot_r_hand) >>= next) (return [])
      (bind-Lessens (lift (get_equipped_item c slot_r_hand)) next (get-Lessens c slot_r_hand)
        λ held.
          if-Lessens (holds_two_handed part_of held) (unequip_slot_if_occupied c slot_r_hand)
            (return []) (unequip_slot_if_occupied-Lessens c slot_r_hand) (return-Lessens []))
      (return-Lessens [])

-- The four cases of the switch.
abbrev pub two_case :
    ℕ → PaperdollSlot → PaperdollSlot → PaperdollSlot → Action (PaperdollSlot × List Item)
two_case c s s' target = then_return (free_two c s s') (λ changed. (target, changed))

abbrev pub dual_case : ℕ → ℕ → PaperdollSlot → Action (PaperdollSlot × List Item)
dual_case c part target = find_dual_slot c part target >>= λ slot.
    then_return (unequip_slot_if_occupied c slot) (λ changed. (slot, changed))

abbrev pub single_case : (ℕ → Option ℕ) → ℕ → PaperdollSlot → Action (PaperdollSlot × List Item)
single_case part_of c target = drop_two_handed part_of c target >>= λ changed.
    then_return (unequip_slot_if_occupied c target) (λ changed2. (target, changed ++ changed2))

pub clear_conflicts-Lessens :
    (part_of : ℕ → Option ℕ) (c part : ℕ) (target : PaperdollSlot)
    → Lessens (clear_conflicts part_of c part target)
unfolding clear_conflicts
clear_conflicts-Lessens part_of c part target =
    if-Lessens (is_two_handed part) (two_case c slot_l_hand slot_r_hand target)
      (if is_full_armor part
        then two_case c slot_legs slot_chest target
        else (if is_dual_slot part then dual_case c part target else single_case part_of c target))
      (then_return-Lessens (free_two c slot_l_hand slot_r_hand) (λ changed. (target, changed))
        (free_two-Lessens c slot_l_hand slot_r_hand))
      (if-Lessens (is_full_armor part) (two_case c slot_legs slot_chest target)
        (if is_dual_slot part then dual_case c part target else single_case part_of c target)
        (then_return-Lessens (free_two c slot_legs slot_chest) (λ changed. (target, changed))
          (free_two-Lessens c slot_legs slot_chest))
        (if-Lessens (is_dual_slot part) (dual_case c part target) (single_case part_of c target)
          (bind-Lessens (find_dual_slot c part target)
            (λ slot. then_return (unequip_slot_if_occupied c slot) (λ changed. (slot, changed)))
            (find_dual_slot-Lessens c part target)
            λ slot.
              then_return-Lessens (unequip_slot_if_occupied c slot) (λ changed. (slot, changed))
                (unequip_slot_if_occupied-Lessens c slot))
          (bind-Lessens (drop_two_handed part_of c target)
            (λ changed.
              then_return (unequip_slot_if_occupied c target)
                (λ changed2. (target, changed ++ changed2)))
            (drop_two_handed-Lessens part_of c target)
            λ changed.
              then_return-Lessens (unequip_slot_if_occupied c target)
                (λ changed2. (target, changed ++ changed2))
                (unequip_slot_if_occupied-Lessens c target))))
