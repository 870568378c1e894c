-- ===== src/Items.antt =====
-- internal/gameserver/models/item.go and repo/postgres_items.go: item rows, the slots of the
-- paperdoll, and the table of items with the queries that the use cases call.
pub mod Store
pub mod Slots
mod Tests
use l2go.Prelude.{
  ℕ, ◌≡◌, Bool, true, false, ◌&&◌, ◌||◌, not, Option, none, some, List, [], ◌∷◌, ◌==◌,
  if◌then◌else◌, nat_eq, leb, Eq, ◌↔◌, arith,
}
use l2go.Prelude.Dict.{Dict, lookup}
use l2go.Prelude.Int.{ℤ, pos, negsuc}

pub data ItemLocation : Type 0 where
  loc_inventory loc_paperdoll loc_warehouse loc_clan_wh loc_pet loc_pet_equip loc_freight :
      ItemLocation

abbrev pub loc_beq : ItemLocation → ItemLocation → Bool
loc_beq loc_inventory loc_inventory = true
loc_beq loc_paperdoll loc_paperdoll = true
loc_beq loc_warehouse loc_warehouse = true
loc_beq loc_clan_wh loc_clan_wh = true
loc_beq loc_pet loc_pet = true
loc_beq loc_pet_equip loc_pet_equip = true
loc_beq loc_freight loc_freight = true
loc_beq _ _ = false

-- The columns that the use cases read or write. Ids are bit patterns. Every test of `count` is
-- against 0 from below, so a count of 0 stands for the negative ones too; an enchant level is never
-- written below 0.
pub record Item : Type 0 where
  pub object_id : ℕ
  pub owner_id : ℕ
  pub item_id : ℕ
  pub count : ℕ
  pub loc : ItemLocation
  pub loc_data : ℤ
  pub enchant_level : ℕ

-- `PaperdollSlot` is an int.
abbrev pub PaperdollSlot : Type 0
PaperdollSlot = ℕ

abbrev pub slot_r_hand : PaperdollSlot
slot_r_hand = 5

abbrev pub slot_chest : PaperdollSlot
slot_chest = 6

abbrev pub slot_l_hand : PaperdollSlot
slot_l_hand = 7

abbrev pub slot_legs : PaperdollSlot
slot_legs = 11

-- Slots and their body parts, as the packets show them; 25 is the virtual two-handed slot.
abbrev pub paperdoll_slot_codes : Dict PaperdollSlot ℕ
paperdoll_slot_codes =
    (0, 0x0001)
    ∷ (1, 0x0040)
    ∷ (2, 0x010000)
    ∷ (3, 0x040000)
    ∷ (4, 0x0008)
    ∷ (5, 0x0080)
    ∷ (6, 0x0400)
    ∷ (7, 0x0100)
    ∷ (8, 0x0002)
    ∷ (9, 0x0004)
    ∷ (10, 0x0200)
    ∷ (11, 0x0800)
    ∷ (12, 0x1000)
    ∷ (13, 0x0010)
    ∷ (14, 0x0020)
    ∷ (15, 0x200000)
    ∷ (16, 0x100000)
    ∷ (17, 0x400000)
    ∷ (18, 0x400000)
    ∷ (19, 0x400000)
    ∷ (20, 0x400000)
    ∷ (21, 0x400000)
    ∷ (22, 0x400000)
    ∷ (23, 0x2000)
    ∷ (24, 0x10000000)
    ∷ (25, 0x4000)
    ∷ []

-- The cases of the switch, in order.
abbrev pub body_part_slots : Dict ℕ PaperdollSlot
body_part_slots =
    (0x0001, 0)
    ∷ (0x0002, 8)
    ∷ (0x0004, 9)
    ∷ (0x0006, 8)
    ∷ (0x0008, 4)
    ∷ (0x0010, 13)
    ∷ (0x0020, 14)
    ∷ (0x0030, 13)
    ∷ (0x0040, 1)
    ∷ (0x0080, 5)
    ∷ (0x0100, 7)
    ∷ (0x0200, 10)
    ∷ (0x0400, 6)
    ∷ (0x0800, 11)
    ∷ (0x1000, 12)
    ∷ (0x2000, 23)
    ∷ (0x4000, 5)
    ∷ (0x8000, 6)
    ∷ (0x010000, 2)
    ∷ (0x040000, 3)
    ∷ (0x050000, 2)
    ∷ (0x100000, 16)
    ∷ (0x200000, 15)
    ∷ (0x400000, 17)
    ∷ (0x10000000, 24)
    ∷ []

unfoldable pub body_part_to_paperdoll_slot : ℕ → Option PaperdollSlot
body_part_to_paperdoll_slot code = lookup code body_part_slots

abbrev pub body_part_lr_ear : ℕ
body_part_lr_ear = 0x0006

abbrev pub body_part_lr_finger : ℕ
body_part_lr_finger = 0x0030

abbrev pub body_part_lr_hand : ℕ
body_part_lr_hand = 0x4000

abbrev pub body_part_full_armor : ℕ
body_part_full_armor = 0x8000

abbrev pub body_part_hair_all : ℕ
body_part_hair_all = 0x050000

abbrev pub is_dual_slot : ℕ → Bool
is_dual_slot code =
    code == body_part_lr_ear || code == body_part_lr_finger || code == body_part_hair_all

abbrev pub is_two_handed : ℕ → Bool
is_two_handed code = code == body_part_lr_hand

abbrev pub is_full_armor : ℕ → Bool
is_full_armor code = code == body_part_full_armor

abbrev pub is_non_negative : ℤ → Bool
is_non_negative (pos n) = true
is_non_negative (negsuc n) = false

abbrev pub is_equipped : Item → Bool
is_equipped i = loc_beq i.loc loc_paperdoll && is_non_negative i.loc_data

abbrev pub is_in_inventory : Item → Bool
is_in_inventory i = loc_beq i.loc loc_inventory

abbrev pub is_in_warehouse : Item → Bool
is_in_warehouse i =
    loc_beq i.loc loc_warehouse || loc_beq i.loc loc_clan_wh || loc_beq i.loc loc_freight

abbrev pub set_location : Item → ItemLocation → ℤ → Item
set_location i location data' = record i { loc = location; loc_data = data' }

abbrev pub equip : Item → PaperdollSlot → Item
equip i slot = set_location i loc_paperdoll (pos slot)

-- -1 is `negsuc 0`.
abbrev pub unequip : Item → Item
unequip i = set_location i loc_inventory (negsuc 0)
