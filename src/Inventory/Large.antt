-- ===== src/Inventory/Large.antt =====
-- A two-handed weapon takes both hands, and full armor takes chest and legs.
use l2go.Prelude.{
  ℕ, ◌≡◌, refl, inl, inr, true, false, ◌||◌, Option, some, List, ◌==◌, if◌then◌else◌, nat_eq, arith,
  Option-cases, Bool-cases,
}
use l2go.Items.{
  Item, PaperdollSlot, slot_r_hand, slot_l_hand, slot_chest, slot_legs, is_two_handed,
  is_full_armor, body_part_to_paperdoll_slot,
}
use l2go.Items.Store.{Outcome, ok, failed}
use l2go.Inventory.{Bag, Action, carry_on, free_two, clear_conflicts, put_on, equip_item}
use l2go.Inventory.Worn.{worn_count}
use l2go.Inventory.Effects.{rows_of}
use l2go.Inventory.Frees.{Freed, Freed-mono}
use l2go.Inventory.Cleared.{free_two-Frees_first, two_handed-slot, full_armor-slot}
use l2go.Inventory.Conflicts.{two_case}
use l2go.Inventory.Laws.{put_on-more}

-- The slot that the item takes besides its own.
abbrev pub other_slot : ℕ → PaperdollSlot
other_slot part = if is_two_handed part then slot_l_hand else slot_legs

abbrev Roomy :
    ℕ → PaperdollSlot → PaperdollSlot → Outcome (PaperdollSlot × List Item) → Bag → Type 0
Roomy c other target (ok (slot, changed)) b = (slot ≡ target) × (worn_count c other (rows_of b) ≡ 0)
Roomy c other target failed b = Unit

carry_on-Roomy :
    (c : ℕ) (other target : PaperdollSlot) (o : Outcome (List Item)) (b : Bag)
    → Freed c other o b
    → let f : List Item → Action (PaperdollSlot × List Item) =
        λ changed b'. (ok (target, changed), b') in
      Roomy c other target (carry_on f o b).0 (carry_on f o b).1
carry_on-Roomy c other target (ok changed) b h = (refl, h)
carry_on-Roomy c other target failed b h = tt

two_case-Roomy :
    (c : ℕ) (s s' target : PaperdollSlot) (b : Bag)
    → let (o, b') = two_case c s s' target b in Roomy c s target o b'
two_case-Roomy c s s' target b =
    carry_on-Roomy c s target (free_two c s s' b).0 (free_two c s s' b).1
      (free_two-Frees_first c s s' b)

clear_conflicts-Roomy :
    (part_of : ℕ → Option ℕ) (c part : ℕ) (target : PaperdollSlot) (b : Bag)
    → (is_two_handed part || is_full_armor part) ≡ true
    → let (o, b') = clear_conflicts part_of c part target b in Roomy c (other_slot part) target o b'
unfolding clear_conflicts
clear_conflicts-Roomy part_of c part target b large = elim (Bool-cases (is_two_handed part)) [
  | inl two ↦ rw (two, clear_conflicts) (two_case-Roomy c slot_l_hand slot_r_hand target b)
  | inr one ↦
      let full : is_full_armor part ≡ true = ground arith in
      rw (one, full, clear_conflicts) (two_case-Roomy c slot_legs slot_chest target b)
]

carry_on-put_on :
    (item : Item) (c : ℕ) (other target : PaperdollSlot) (o : Outcome (PaperdollSlot × List Item))
    (b : Bag)
    → (other == target) ≡ false
    → Roomy c other target o b
    → let (o', b') = carry_on (put_on item) o b in Freed c other o' b'
carry_on-put_on item c other target failed b ne roomy = tt
carry_on-put_on item c other target (ok (slot, changed)) b ne roomy =
    let (o', b') = put_on item (slot, changed) b in
    Freed-mono c other o' b b' roomy.1 (ground (arith, put_on-more item slot changed b c other))

other-target :
    (part : ℕ) (target : PaperdollSlot)
    → (is_two_handed part || is_full_armor part) ≡ true
    → body_part_to_paperdoll_slot part ≡ some target
    → (other_slot part == target) ≡ false
other-target part target large found = elim (Bool-cases (is_two_handed part)) [
  | inl two ↦ ground (arith, two_handed-slot part target two found)
  | inr one ↦
      let full : is_full_armor part ≡ true = ground arith in
      ground (arith, full_armor-slot part target full found)
]

-- When putting on a two-handed weapon succeeds, the character's left hand is empty, and when putting
-- on full armor does, the legs are.
pub equip_item-other_slot :
    (part_of : ℕ → Option ℕ) (c : ℕ) (item : Item) (part : ℕ) (b : Bag)
    → (is_two_handed part || is_full_armor part) ≡ true
    → let (o, b') = equip_item part_of c item part b in Freed c (other_slot part) o b'
unfolding equip_item
equip_item-other_slot part_of c item part b large =
    elim (Option-cases (body_part_to_paperdoll_slot part)) [
      | inl missing ↦ rw (missing, equip_item) tt
      | inr (target, found) ↦
          let (o, b') = clear_conflicts part_of c part target b in
          rw (found, equip_item)
            (carry_on-put_on item c (other_slot part) target o b'
              (other-target part target large found)
              (clear_conflicts-Roomy part_of c part target b large))
    ]
