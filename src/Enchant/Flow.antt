-- ===== src/Enchant/Flow.antt =====
-- EnchantUseCase of usecase/enchant.go with the armed scrolls of registry/enchantstate.go: a scroll
-- is armed by using it, the window takes a target, and the answer to it is the attempt.
pub mod Attempt
pub mod Rows
pub mod Laws
pub mod Faults
pub mod Window
mod Tests
use l2go.Prelude.{
  ℕ, ◌+◌, ◌-◌, Bool, true, false, not, Option, none, some, List, [], ◌∷◌, ◌++◌, ◌==◌, if◌then◌else◌,
  leb, nat_eq,
}
use l2go.Prelude.Dict.{Dict, lookup, insert, delete}
use l2go.Prelude.Nested.{is_some}
use l2go.Items.{Item}
use l2go.Items.Store.{
  Store, Outcome, ok, failed, Query, ◌>>=◌, return, get_by_object_id, update, delete_item,
}
use l2go.Enchant.{
  Float64, EnchantScrollInfo, EnchantTarget, EnchantDecision, EnchantResultCode, code_error,
  decide_enchant, validate_enchant, classify_enchant_scroll, sys_msg_inappropriate_enchant,
  sys_msg_enchant_in_progress, sys_msg_does_not_fit_scroll,
}
use l2go.Enchant.Rules.{is_error, is_success}
use l2go.Enchant.Conditions.{ItemTemplate, Data, both_owned, window_conditions, attempt_conditions}

pub record ActiveEnchant : Type 0 where
  pub scroll_object_id : ℕ
  pub scroll_item_id : ℕ

abbrev pub Armed : Type 0
Armed = Dict ℕ ActiveEnchant

unfoldable pub set_active : Armed → ℕ → ActiveEnchant → Armed
set_active r char_id a = insert char_id a r

unfoldable pub get_active : Armed → ℕ → Option ActiveEnchant
get_active r char_id = lookup char_id r

unfoldable pub has_active : Armed → ℕ → Bool
has_active r char_id = is_some (lookup char_id r)

unfoldable pub clear : Armed → ℕ → Armed
clear r char_id = delete char_id r

-- What the notifier was asked to send.
pub data Notice : Type 0 where
  choose_inventory_item system_message : ℕ → ℕ → Notice

-- The whole handler: it never consumes the scroll.
unfoldable pub use_scroll : Armed → ℕ → Item → Option ItemTemplate → Armed × List Notice
use_scroll r char_id item none = (r, [])
use_scroll r char_id item (some tmpl) =
    if not (is_some (classify_enchant_scroll tmpl.etcitem_type))
    then (r, [])
    else (if has_active r char_id
        then (r, system_message char_id sys_msg_enchant_in_progress ∷ [])
        else (
          set_active r char_id
              (record { scroll_object_id = item.object_id; scroll_item_id = tmpl.template_id }),
          choose_inventory_item char_id tmpl.template_id ∷ [],
        ))

pub data PutEnchantResult : Type 0 where
  put_enchant_ignore put_enchant_invalid put_enchant_accepted : PutEnchantResult

module _ {F : Type 0} where
  unfoldable pub judge : Option (EnchantScrollInfo F × EnchantTarget F) → PutEnchantResult
  judge none = put_enchant_invalid
  judge (some (s, t)) = if validate_enchant s t then put_enchant_accepted else put_enchant_invalid

  unfoldable pub check_window : Data F → F → Option (Item × Item) → PutEnchantResult
  check_window d zero_chance none = put_enchant_ignore
  check_window d zero_chance (some (scroll, target)) =
      judge (window_conditions d zero_chance scroll target)

  unfoldable pub window_query : Data F → F → ℕ → ℕ → ℕ → Query PutEnchantResult
  window_query d zero_chance char_id scroll_id target_id = get_by_object_id scroll_id >>= λ scroll.
      get_by_object_id target_id >>= λ target.
      return (check_window d zero_chance (both_owned char_id scroll target))

abbrev pub is_invalid : Outcome PutEnchantResult → Bool
is_invalid (ok put_enchant_invalid) = true
is_invalid _ = false

-- The message that goes with each result.
abbrev pub put_message : PutEnchantResult → ℕ
put_message put_enchant_invalid = sys_msg_does_not_fit_scroll
put_message _ = 0

module _ {F : Type 0} where
  unfoldable pub validate_target :
      Data F → F → Armed → Store → ℕ → ℕ → Outcome PutEnchantResult × Armed × Store
  validate_target d zero_chance r st char_id target_id = elim (get_active r char_id) [
    | none ↦ (ok put_enchant_ignore, r, st)
    | some a ↦
        if target_id == 0
        then (ok put_enchant_ignore, r, st)
        else (let (o, st') = window_query d zero_chance char_id a.scroll_object_id target_id st in
            (o, (if is_invalid o then clear r char_id else r), st'))
  ]

unfoldable pub cancel_enchant : Armed → ℕ → Armed
cancel_enchant r char_id = clear r char_id
