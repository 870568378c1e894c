-- ===== src/Enchant/Conditions.antt =====
-- The checks between the two loads and the decision: templates, scroll class, scroll data, chance.
use l2go.Prelude.{ℕ, Bool, ◌||◌, not, Option, none, some, ◌==◌, if◌then◌else◌, String}
use l2go.Items.{Item}
use l2go.Enchant.{
  ItemType2, ItemGrade, EnchantScrollInfo, EnchantTarget, ScrollClass, classify_enchant_scroll,
  grade_s_plus,
}

-- The fields of an `ItemTemplate` that the flow reads.
pub record ItemTemplate : Type 0 where
  pub template_id : ℕ
  pub type2 : ItemType2
  pub crystal_type : ItemGrade
  pub etcitem_type : String
  pub enchantable : Bool
  pub body_part_code : ℕ
  pub is_magic_weapon : Bool

pub record EnchantScrollData (F : Type 0) : Type 0 where
  pub target_grade : ItemGrade
  pub scroll_group_id : ℕ
  pub max_enchant : ℕ
  pub bonus_rate : F

-- The tables loaded from the datapack: `itemTemplate`, EnchantDataSource and EnchantChanceSource.
pub record Data (F : Type 0) : Type 0 where
  pub item_template : ℕ → Option ItemTemplate
  pub get_enchant_scroll : ℕ → Option (EnchantScrollData F)
  pub chance : ℕ → ℕ → Bool → ℕ → ℕ → Option F

unfoldable pub scroll_info : {F : Type 0} → ScrollClass → EnchantScrollData F → EnchantScrollInfo F
scroll_info c sd = record {
  is_weapon = c.for_weapon;
  is_blessed = c.blessed;
  is_safe = c.safe;
  target_grade = sd.target_grade;
  max_enchant = sd.max_enchant;
  bonus_rate = sd.bonus_rate;
}

unfoldable pub target_info : {F : Type 0} → ItemTemplate → Item → F → EnchantTarget F
target_info tmpl target base = record {
  type2 = tmpl.type2;
  grade = grade_s_plus tmpl.crystal_type;
  level = target.enchant_level;
  enchantable = tmpl.enchantable;
  base_chance = base;
}

-- `scroll == nil || target == nil || target.OwnerID != charID || scroll.OwnerID != charID`.
unfoldable pub both_owned : ℕ → Option Item → Option Item → Option (Item × Item)
both_owned char_id (some scroll) (some target) =
    if not (target.owner_id == char_id) || not (scroll.owner_id == char_id)
    then none
    else some (scroll, target)
both_owned char_id _ _ = none

infixl 20 ◌>>=◌
abbrev ◌>>=◌ : {A B : Type 0} → Option A → (A → Option B) → Option B
none >>= f = none
some a >>= f = f a

-- What the window needs: the chance is not looked up there.
unfoldable pub window_conditions :
    {F : Type 0} → Data F → F → Item → Item → Option (EnchantScrollInfo F × EnchantTarget F)
window_conditions d zero_chance scroll target = do
  scroll_tmpl ← d.item_template scroll.item_id
  target_tmpl ← d.item_template target.item_id
  sd ← d.get_enchant_scroll scroll.item_id
  c ← classify_enchant_scroll scroll_tmpl.etcitem_type
  some (scroll_info c sd, target_info target_tmpl target zero_chance)

unfoldable pub attempt_conditions :
    {F : Type 0} → Data F → Item → Item → Option (EnchantScrollInfo F × EnchantTarget F)
attempt_conditions d scroll target = do
  scroll_tmpl ← d.item_template scroll.item_id
  target_tmpl ← d.item_template target.item_id
  c ← classify_enchant_scroll scroll_tmpl.etcitem_type
  sd ← d.get_enchant_scroll scroll.item_id
  base ←
      d.chance sd.scroll_group_id target_tmpl.body_part_code target_tmpl.is_magic_weapon
        target.item_id target.enchant_level
  some (scroll_info c sd, target_info target_tmpl target base)
