-- ===== src/Inventory/Cleared.antt =====
-- The slot that the switch on slot conflicts gives is empty.
use l2go.Prelude.{
  ℕ, ◌≡◌, refl, Bool, true, false, Option, some, List, ◌++◌, if◌then◌else◌, nat_eq, arith,
}
use l2go.Prelude.Dict.{lookup}
use l2go.Items.{
  Item, PaperdollSlot, slot_r_hand, slot_l_hand, slot_chest, slot_legs, is_dual_slot, is_two_handed,
  is_full_armor, body_part_to_paperdoll_slot,
}
use l2go.Items.Store.{Outcome, ok, failed}
use l2go.Inventory.{
  Bag, Action, carry_on, return, unequip_slot_if_occupied, find_dual_slot, free_two,
  drop_two_handed, clear_conflicts,
}
use l2go.Inventory.Worn.{worn_count}
use l2go.Inventory.Effects.{rows_of, return-Lessens, unequip_slot_if_occupied-Lessens}
use l2go.Inventory.Frees.{Freed, Frees, bind-Frees, bind-Frees_last, unequip_slot_if_occupied-Frees}
use l2go.Inventory.Conflicts.{then_return, two_case, dual_case, single_case, then_return-Lessens}

abbrev pub Cleared : ℕ → Outcome (PaperdollSlot × List Item) → Bag → Type 0
Cleared c (ok (slot, changed)) b = worn_count c slot (rows_of b) ≡ 0
Cleared c failed b = Unit

carry_on-Cleared :
    (c : ℕ) (s : PaperdollSlot) (g : List Item → List Item) (o : Outcome (List Item)) (b : Bag)
    → Freed c s o b
    → let f : List Item → Action (PaperdollSlot × List Item) = λ changed. return (s, g changed) in
      Cleared c (carry_on f o b).0 (carry_on f o b).1
carry_on-Cleared c s g (ok changed) b h = h
carry_on-Cleared c s g failed b h = tt

then_return-Cleared :
    (c : ℕ) (s : PaperdollSlot) (g : List Item → List Item) (q : Action (List Item)) (b : Bag)
    → Frees c s q
    → let (o, b') = then_return {A = PaperdollSlot × List Item} q (λ changed. (s, g changed)) b in
      Cleared c o b'
then_return-Cleared c s g q b h = carry_on-Cleared c s g (q b).0 (q b).1 (h b)

bind-Cleared :
    {A : Type 0} (c : ℕ) (f : A → Action (PaperdollSlot × List Item)) (o : Outcome A) (b : Bag)
    → ((a : A) (b' : Bag) → Cleared c (f a b').0 (f a b').1)
    → Cleared c (carry_on f o b).0 (carry_on f o b).1
bind-Cleared c f (ok a) b h = h a b
bind-Cleared c f failed b h = tt

free_two-Frees : (c : ℕ) (s s' : PaperdollSlot) → Frees c s' (free_two c s s')
unfolding free_two
free_two-Frees c s s' =
    bind-Frees_last (unequip_slot_if_occupied c s)
      (λ changed. then_return (unequip_slot_if_occupied c s') (λ changed2. changed ++ changed2)) c
      s'
      λ changed.
        bind-Frees (unequip_slot_if_occupied c s') (λ changed2. return (changed ++ changed2)) c s'
          (unequip_slot_if_occupied-Frees c s') λ changed2. return-Lessens (changed ++ changed2)

pub free_two-Frees_first : (c : ℕ) (s s' : PaperdollSlot) → Frees c s (free_two c s s')
unfolding free_two
free_two-Frees_first c s s' =
    bind-Frees (unequip_slot_if_occupied c s)
      (λ changed. then_return (unequip_slot_if_occupied c s') (λ changed2. changed ++ changed2)) c s
      (unequip_slot_if_occupied-Frees c s)
      λ changed.
        then_return-Lessens (unequip_slot_if_occupied c s') (λ changed2. changed ++ changed2)
          (unequip_slot_if_occupied-Lessens c s')

pub two_handed-slot :
    (part : ℕ) (target : PaperdollSlot)
    → is_two_handed part ≡ true
    → body_part_to_paperdoll_slot part ≡ some target
    → target ≡ slot_r_hand
unfolding body_part_to_paperdoll_slot lookup
two_handed-slot part target h e = ground arith

pub full_armor-slot :
    (part : ℕ) (target : PaperdollSlot)
    → is_full_armor part ≡ true
    → body_part_to_paperdoll_slot part ≡ some target
    → target ≡ slot_chest
unfolding body_part_to_paperdoll_slot lookup
full_armor-slot part target h e = ground arith

if-Cleared :
    (c : ℕ) (t : Bool) (q q' : Action (PaperdollSlot × List Item)) (b : Bag)
    → (t ≡ true → Cleared c (q b).0 (q b).1)
    → Cleared c (q' b).0 (q' b).1
    → Cleared c ((if t then q else q') b).0 ((if t then q else q') b).1
if-Cleared c true q q' b h h' = h refl
if-Cleared c false q q' b h h' = h'

two_case-Cleared :
    (c : ℕ) (s s' target : PaperdollSlot) (b : Bag)
    → target ≡ s'
    → Cleared c (two_case c s s' target b).0 (two_case c s s' target b).1
two_case-Cleared c s s' target b e =
    then_return-Cleared c target (λ changed. changed) (free_two c s s') b
      (rw e (free_two-Frees c s s'))

pub clear_conflicts-Cleared :
    (part_of : ℕ → Option ℕ) (c part : ℕ) (target : PaperdollSlot) (b : Bag)
    → body_part_to_paperdoll_slot part ≡ some target
    → let (o, b') = clear_conflicts part_of c part target b in Cleared c o b'
unfolding clear_conflicts
clear_conflicts-Cleared part_of c part target b e =
    let one : (slot : PaperdollSlot) (g : List Item → List Item) (b' : Bag)
        → Cleared c
            (then_return {A = PaperdollSlot × List Item} (unequip_slot_if_occupied c slot)
              (λ changed. (slot, g changed)) b').0
            (then_return {A = PaperdollSlot × List Item} (unequip_slot_if_occupied c slot)
              (λ changed. (slot, g changed)) b').1 =
      λ slot g b'.
        then_return-Cleared c slot g (unequip_slot_if_occupied c slot) b'
          (unequip_slot_if_occupied-Frees c slot) in
    if-Cleared c (is_two_handed part) (two_case c slot_l_hand slot_r_hand target)
      (if is_full_armor part
        then two_case c slot_legs slot_chest target
        else (if is_dual_slot part then dual_case c part target else single_case part_of c target))
      b (λ h. two_case-Cleared c slot_l_hand slot_r_hand target b (two_handed-slot part target h e))
      (if-Cleared c (is_full_armor part) (two_case c slot_legs slot_chest target)
        (if is_dual_slot part then dual_case c part target else single_case part_of c target) b
        (λ h. two_case-Cleared c slot_legs slot_chest target b (full_armor-slot part target h e))
        (if-Cleared c (is_dual_slot part) (dual_case c part target) (single_case part_of c target) b
          (λ h.
            bind-Cleared c
              (λ slot. then_return (unequip_slot_if_occupied c slot) (λ changed. (slot, changed)))
              (find_dual_slot c part target b).0 (find_dual_slot c part target b).1
              λ slot b'. one slot (λ changed. changed) b')
          (bind-Cleared c
            (λ changed.
              then_return (unequip_slot_if_occupied c target)
                (λ changed2. (target, changed ++ changed2)))
            (drop_two_handed part_of c target b).0 (drop_two_handed part_of c target b).1
            λ changed b'. one target (λ changed2. changed ++ changed2) b')))
