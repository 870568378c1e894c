-- ===== src/Enchant/Flow/Tests.antt =====
-- A scroll for weapons on a sword, with numbers in place of floats.
use l2go.Prelude.{
  ℕ, ◌+◌, ◌≡◌, refl, min, Bool, true, false, Option, none, some, List, [], ◌∷◌, ltb, nat_eq, ◌==◌,
  if◌then◌else◌, not, arith, ◌⊎◌, ◌&&◌,
}
use l2go.Prelude.Dict.{lookup, insert, delete}
use l2go.Prelude.Nested.{is_some}
use l2go.Prelude.Int.{negsuc}
use l2go.Items.{Item, loc_inventory}
use l2go.Items.Store.{Store, Rows, get_by_object_id, update, update_row, delete_item, Keyed}
use l2go.Enchant.{
  Float64, type2_weapon, type2_other, EnchantScrollInfo, EnchantTarget, decide_enchant,
  decide_failure, validate_enchant, enchant_type_matches, grade_s_plus, classify_enchant_scroll,
  code_success,
}
use l2go.Enchant.Conditions.{
  ItemTemplate, Data, both_owned, attempt_conditions, scroll_info, target_info,
}
use l2go.Enchant.Flow.{
  Armed, ActiveEnchant, get_active, has_active, validate_target, use_scroll, choose_inventory_item,
}
use l2go.Enchant.Flow.Attempt.{
  consume_scroll, apply_target, carry_out, decide_and_do, attempt_on, attempt, enchant_item,
}
use l2go.Enchant.Flow.Rows.{reported, one_less}
use l2go.Enchant.Flow.Laws.{enchant_item-resolves, resolved, use_scroll-get_active}
use l2go.Enchant.Flow.Faults.{Paid, enchant_item-Paid}
use l2go.Enchant.Flow.Window.{succeeds, accepted, has_chance, enchant_item-validate_target}

abbrev numbers : Float64 ℕ
numbers = record { add = ◌+◌; minimum = min; less = ltb; hundred = 100; scale = λ n. n }

abbrev scroll_template : ItemTemplate
scroll_template = record {
  template_id = 955;
  type2 = type2_other;
  crystal_type = 0;
  etcitem_type = "SCRL_ENCHANT_WP";
  enchantable = false;
  body_part_code = 0;
  is_magic_weapon = false;
}

abbrev sword_template : ItemTemplate
sword_template = record {
  template_id = 2;
  type2 = type2_weapon;
  crystal_type = 1;
  etcitem_type = "OTHER";
  enchantable = true;
  body_part_code = 0x80;
  is_magic_weapon = false;
}

abbrev templates : ℕ → Option ItemTemplate
templates id =
    if id == 955 then some scroll_template else (if id == 2 then some sword_template else none)

abbrev tables : Data ℕ
tables = record {
  item_template = templates;
  get_enchant_scroll = λ id.
      some (record { target_grade = 1; scroll_group_id = 0; max_enchant = 16; bonus_rate = 0 });
  chance = λ g b m i l. if g == 0 then some 66 else none;
}

abbrev scrolls : Item
scrolls = record {
  object_id = 10;
  owner_id = 7;
  item_id = 955;
  count = 2;
  loc = loc_inventory;
  loc_data = negsuc 0;
  enchant_level = 0;
}

abbrev sword : Item
sword = record {
  object_id = 11;
  owner_id = 7;
  item_id = 2;
  count = 1;
  loc = loc_inventory;
  loc_data = negsuc 0;
  enchant_level = 3;
}

abbrev table : Rows
table = (10, scrolls) ∷ (11, sword) ∷ []

abbrev armed_scroll : ActiveEnchant
armed_scroll = record { scroll_object_id = 10; scroll_item_id = 955 }

abbrev armed : Armed
armed = (7, armed_scroll) ∷ []

table-Keyed : Keyed table
unfolding lookup
table-Keyed id i h = ground arith

blessed_armor :
    classify_enchant_scroll "BLESS_SCRL_ENCHANT_AM"
    ≡ some (record { for_weapon = false; blessed = true; safe = false })
unfolding classify_enchant_scroll
blessed_armor = refl

abbrev weapon_scroll : EnchantScrollInfo ℕ
weapon_scroll = record {
  is_weapon = true;
  is_blessed = false;
  is_safe = false;
  target_grade = 1;
  max_enchant = 16;
  bonus_rate = 0;
}

abbrev sword_info : EnchantTarget ℕ
sword_info = record {
  type2 = type2_weapon;
  grade = 1;
  level = 3;
  enchantable = true;
  base_chance = 66;
}

fits : attempt_conditions tables scrolls sword ≡ some (weapon_scroll, sword_info)
unfolding attempt_conditions classify_enchant_scroll scroll_info target_info grade_s_plus
fits = refl

abbrev start : Store
start = record { rows = table; faults = [] }

lucky : reported (enchant_item numbers tables 50 armed start 7 11).0 ≡ some code_success
unfolding enchant_item get_active attempt attempt_on both_owned decide_and_do carry_out
    consume_scroll apply_target get_by_object_id update update_row delete_item attempt_conditions
    classify_enchant_scroll scroll_info target_info grade_s_plus decide_enchant decide_failure
    validate_enchant enchant_type_matches lookup insert delete
lucky = refl

armed_7 : get_active armed 7 ≡ some armed_scroll
unfolding get_active lookup
armed_7 = refl

scrolls_there : lookup 10 table ≡ some scrolls
unfolding lookup
scrolls_there = refl

sword_there : lookup 11 table ≡ some sword
unfolding lookup
sword_there = refl

enchant_item-resolves_example :
    let (o, armed', st) = enchant_item numbers tables 80 armed start 7 11 in
    let code = (decide_enchant numbers weapon_scroll sword_info 80).code in
    (reported o ≡ some code)
    × ((id : ℕ)
        → lookup id st.rows ≡ (
            if not (validate_enchant weapon_scroll sword_info)
            then lookup id table
            else (if 11 == id
                then resolved code sword
                else (if 10 == id then one_less scrolls else lookup id table))))
    × ((other : ℕ)
        → get_active armed' other ≡ (if 7 == other then none else get_active armed other))
enchant_item-resolves_example =
    enchant_item-resolves numbers tables 80 armed table 7 11 armed_scroll scrolls sword
      weapon_scroll sword_info table-Keyed armed_7 (ground arith) (ground arith) scrolls_there
      sword_there refl refl fits

-- The last write fails.
abbrev late_fault : List Bool
late_fault = false ∷ false ∷ false ∷ true ∷ []

enchant_item-Paid_example :
    let (o, armed', st) =
      enchant_item numbers tables 50 armed (record { rows = table; faults = late_fault }) 7 11 in
    Paid 10 11 table st.rows
    × ((other : ℕ)
        → get_active armed' other ≡ (if 7 == other then none else get_active armed other))
enchant_item-Paid_example =
    enchant_item-Paid numbers tables 50 armed table late_fault 7 11 armed_scroll table-Keyed armed_7
      (ground arith)

enchant_item-validate_target_example :
    succeeds (reported (enchant_item numbers tables 50 armed start 7 11).0)
    ≡ (accepted (validate_target tables 0 armed start 7 11).0 && has_chance tables scrolls sword)
enchant_item-validate_target_example =
    enchant_item-validate_target numbers tables 50 0 armed table 7 11 armed_scroll scrolls sword
      armed_7 (ground arith) scrolls_there sword_there refl refl

use_scroll-get_active_example :
    let (armed', notices) = use_scroll armed 8 scrolls (some scroll_template) in
    let arms = is_some (classify_enchant_scroll "SCRL_ENCHANT_WP") && not (has_active armed 8) in
    let a : ActiveEnchant = record { scroll_object_id = 10; scroll_item_id = 955 } in
    (get_active armed' 8 ≡ (if arms && (8 == 8) then some a else get_active armed 8))
    × ((notices ≡ choose_inventory_item 8 955 ∷ []) ⊎ (arms ≡ false))
use_scroll-get_active_example = use_scroll-get_active armed 8 scrolls scroll_template 8
