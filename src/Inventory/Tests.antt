-- ===== src/Inventory/Tests.antt =====
-- A two-handed sword over a blade and a shield.
use l2go.Prelude.{ℕ, ◌≡◌, refl, Option, some, [], ◌∷◌, arith, nat_eq, ◌==◌, if◌then◌else◌}
use l2go.Prelude.Dict.{lookup, insert, delete}
use l2go.Prelude.Int.{pos, negsuc}
use l2go.Registry.Shots.{soulshot, clear_charged, charged_grade, shot_eq}
use l2go.Prelude.Nested.{nested_lookup}
use l2go.Items.{Item, loc_inventory, loc_paperdoll, body_part_to_paperdoll_slot, equip}
use l2go.Items.Store.{
  Rows, get_equipped_item, unequip_slot, equip_item_row, find_worn, unequip_rows, equip_row,
}
use l2go.Inventory.{
  Bag, equip_item, clear_conflicts, free_two, unequip_slot_if_occupied, unequip_found, unequip_item,
  discharge, put_on,
}
use l2go.Inventory.Worn.{worn_count, owner_of}
use l2go.Inventory.Effects.{rows_of}
use l2go.Inventory.Frees.{Freed}
use l2go.Inventory.Laws.{OneWorn, equip_item-OneWorn}
use l2go.Inventory.Large.{equip_item-other_slot}
use l2go.Inventory.Sure.{Done, equip_item-Sure}

abbrev blade : Item
blade = record {
  object_id = 21;
  owner_id = 7;
  item_id = 2;
  count = 1;
  loc = loc_paperdoll;
  loc_data = pos 5;
  enchant_level = 0;
}

abbrev shield : Item
shield = record blade { object_id = 22; item_id = 18; loc_data = pos 7 }

abbrev sword : Item
sword = record blade { object_id = 23; item_id = 70; loc = loc_inventory; loc_data = negsuc 0 }

abbrev table : Rows
table = (21, blade) ∷ (22, shield) ∷ (23, sword) ∷ []

abbrev bag : Bag
bag = record {
  store = record { rows = table; faults = [] };
  charged = (21, (soulshot, 3) ∷ []) ∷ [];
}

abbrev parts : ℕ → Option ℕ
parts id = if id == 70 then some 0x4000 else (if id == 18 then some 0x100 else some 0x80)

both_hands : find_worn 7 5 (rows_of (equip_item parts 7 sword 0x4000 bag).1) ≡ some (equip sword 5)
unfolding equip_item body_part_to_paperdoll_slot clear_conflicts free_two unequip_slot_if_occupied
    unequip_found unequip_item discharge put_on get_equipped_item unequip_slot equip_item_row
    find_worn unequip_rows equip_row lookup insert clear_charged delete
both_hands = refl

blade_discharged : charged_grade (equip_item parts 7 sword 0x4000 bag).1.charged 21 soulshot ≡ 0
unfolding equip_item body_part_to_paperdoll_slot clear_conflicts free_two unequip_slot_if_occupied
    unequip_found unequip_item discharge put_on get_equipped_item unequip_slot equip_item_row
    find_worn unequip_rows equip_row lookup insert clear_charged delete charged_grade nested_lookup
blade_discharged = refl

one_each : OneWorn table
unfolding worn_count
one_each c s = ground arith

mine : owner_of 23 table ≡ some 7
unfolding lookup
mine = refl

equip_item-OneWorn_example : OneWorn (rows_of (equip_item parts 7 sword 0x4000 bag).1)
equip_item-OneWorn_example = equip_item-OneWorn parts 7 sword 0x4000 bag one_each mine

equip_item-other_slot_example : let (o, b') = equip_item parts 7 sword 0x4000 bag in Freed 7 7 o b'
equip_item-other_slot_example = equip_item-other_slot parts 7 sword 0x4000 bag refl

two_handed : body_part_to_paperdoll_slot 0x4000 ≡ some 5
unfolding body_part_to_paperdoll_slot lookup
two_handed = refl

equip_item-Sure_example : let (o, b') = equip_item parts 7 sword 0x4000 bag in Done o b'
equip_item-Sure_example = equip_item-Sure parts 7 sword 0x4000 5 bag two_handed refl
