-- ===== src/Enchant.antt =====
-- The rules of enchanting, internal/gameserver/usecase/enchant.go: which scroll fits which item, and
-- what an attempt does to the scroll and the item.
pub mod Rules
pub mod Conditions
pub mod Flow
mod Tests
use Prim.Native.String.{slice, count}
use text.Mathlib.Text.{◌==◌ as str_eq, starts_with}
use l2go.Prelude.{
  ℕ, ◌+◌, ◌-◌, ◌≡◌, Bool, true, false, ◌&&◌, ◌||◌, not, Option, none, some, List, [], ◌∷◌, ◌==◌,
  if◌then◌else◌, ltb, leb, String,
}

pub data EnchantResultCode : Type 0 where
  code_success code_fail_crystal code_error code_blessed_fail code_fail_destroy code_safe_fail :
      EnchantResultCode

pub data ItemType2 : Type 0 where
  type2_weapon type2_armor type2_accessory type2_quest type2_money type2_other : ItemType2

-- `ItemGrade` is an int32: no grade, D, C, B, A, S, S80, S84.
abbrev pub ItemGrade : Type 0
ItemGrade = ℕ

abbrev pub grade_s : ItemGrade
grade_s = 5

abbrev pub grade_s80 : ItemGrade
grade_s80 = 6

abbrev pub grade_s84 : ItemGrade
grade_s84 = 7

unfoldable pub grade_s_plus : ItemGrade → ItemGrade
grade_s_plus g = if g == grade_s80 || g == grade_s84 then grade_s else g

abbrev pub sys_msg_inappropriate_enchant : ℕ
sys_msg_inappropriate_enchant = 355

abbrev pub sys_msg_blessed_enchant_failed : ℕ
sys_msg_blessed_enchant_failed = 1517

abbrev pub sys_msg_safe_enchant_failed : ℕ
sys_msg_safe_enchant_failed = 6004

abbrev pub sys_msg_enchant_in_progress : ℕ
sys_msg_enchant_in_progress = 2188

abbrev pub sys_msg_does_not_fit_scroll : ℕ
sys_msg_does_not_fit_scroll = 424

-- The float64 operations of the attempt, which round: the proofs use no law of them.
pub record Float64 (F : Type 0) : Type 0 where
  pub add : F → F → F
  pub minimum : F → F → F
  pub less : F → F → Bool
  pub hundred : F
  pub scale : F → F

pub record EnchantScrollInfo (F : Type 0) : Type 0 where
  pub is_weapon : Bool
  pub is_blessed : Bool
  pub is_safe : Bool
  pub target_grade : ItemGrade
  pub max_enchant : ℕ
  pub bonus_rate : F

pub record EnchantTarget (F : Type 0) : Type 0 where
  pub type2 : ItemType2
  pub grade : ItemGrade
  pub level : ℕ
  pub enchantable : Bool
  pub base_chance : F

pub record EnchantDecision : Type 0 where
  pub code : EnchantResultCode
  pub new_level : ℕ
  pub consume_scroll : Bool
  pub destroy_target : Bool
  pub system_msg : ℕ

unfoldable pub enchant_type_matches : Bool → ItemType2 → Bool
enchant_type_matches true type2_weapon = true
enchant_type_matches true _ = false
enchant_type_matches false type2_armor = true
enchant_type_matches false type2_accessory = true
enchant_type_matches false _ = false

-- A caller without a chance at hand leaves it at 0; the test does not read it.
unfoldable pub validate_enchant : {F : Type 0} → EnchantScrollInfo F → EnchantTarget F → Bool
validate_enchant s t =
    if not t.enchantable
      || not (enchant_type_matches s.is_weapon t.type2)
      || not (t.grade == s.target_grade)
    then false
    else (if ltb 0 s.max_enchant && ltb s.max_enchant t.level then false else true)

-- The switch on a failure.
unfoldable pub decide_failure :
    {F : Type 0} → EnchantScrollInfo F → EnchantTarget F → EnchantDecision
decide_failure s t =
    if s.is_safe
    then record {
      code = code_safe_fail;
      new_level = t.level;
      consume_scroll = true;
      destroy_target = false;
      system_msg = sys_msg_safe_enchant_failed;
    }
    else (if s.is_blessed
        then record {
          code = code_blessed_fail;
          new_level = 0;
          consume_scroll = true;
          destroy_target = false;
          system_msg = sys_msg_blessed_enchant_failed;
        }
        else record {
          code = code_fail_destroy;
          new_level = 0;
          consume_scroll = true;
          destroy_target = true;
          system_msg = 0;
        })

unfoldable pub decide_enchant :
    {F : Type 0} → Float64 F → EnchantScrollInfo F → EnchantTarget F → F → EnchantDecision
decide_enchant fl s t roll =
    if not (validate_enchant s t)
    then record {
      code = code_error;
      new_level = t.level;
      consume_scroll = false;
      destroy_target = false;
      system_msg = sys_msg_inappropriate_enchant;
    }
    else (if fl.less roll (fl.minimum (fl.add t.base_chance s.bonus_rate) fl.hundred)
        then record {
          code = code_success;
          new_level = t.level + 1;
          consume_scroll = true;
          destroy_target = false;
          system_msg = 0;
        }
        else decide_failure s t)

abbrev pub one_of : List String → String → Bool
one_of [] s = false
one_of (name ∷ names) s = str_eq s name || one_of names s

abbrev pub has_suffix : String → String → Bool
has_suffix s t = str_eq (slice s (count s - count t) (count s)) t

abbrev pub scroll_names : List String
scroll_names =
    "SCRL_ENCHANT_WP" ∷ "SCRL_ENCHANT_AM" ∷ "BLESS_SCRL_ENCHANT_WP" ∷ "BLESS_SCRL_ENCHANT_AM"
    ∷ "ANCIENT_CRYSTAL_ENCHANT_WP" ∷ "ANCIENT_CRYSTAL_ENCHANT_AM" ∷ "SCRL_INC_ENCHANT_PROP_WP"
    ∷ "SCRL_INC_ENCHANT_PROP_AM" ∷ []

-- Weapon, blessed and safe; none for what is no enchant scroll.
pub record ScrollClass : Type 0 where
  pub for_weapon : Bool
  pub blessed : Bool
  pub safe : Bool

unfoldable pub classify_enchant_scroll : String → Option ScrollClass
classify_enchant_scroll etc =
    if one_of scroll_names etc
    then some (record {
      for_weapon = has_suffix etc "_WP";
      blessed = starts_with etc "BLESS_";
      safe = starts_with etc "ANCIENT_CRYSTAL_";
    })
    else none
