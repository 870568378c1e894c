-- ===== src/Enchant/Flow/Attempt.antt =====
-- EnchantItem and consumeScroll of usecase/enchant.go.
use l2go.Prelude.{ℕ, ◌-◌, Bool, true, false, Option, none, some, ◌==◌, if◌then◌else◌, leb, nat_eq}
use l2go.Items.{Item}
use l2go.Items.Store.{
  Store, Outcome, ok, Query, ◌>>=◌, return, get_by_object_id, update, delete_item,
}
use l2go.Enchant.{
  Float64, EnchantScrollInfo, EnchantTarget, EnchantDecision, EnchantResultCode, code_error,
  decide_enchant, sys_msg_inappropriate_enchant,
}
use l2go.Enchant.Rules.{is_error, is_success}
use l2go.Enchant.Conditions.{Data, both_owned, attempt_conditions}
use l2go.Enchant.Flow.{Armed, get_active, clear}

pub record EnchantOutcome : Type 0 where
  pub code : EnchantResultCode
  pub system_msg : ℕ
  pub target : Option Item
  pub target_destroyed : Bool
  pub scroll : Option Item
  pub scroll_removed : Bool
  pub new_enchant_level : ℕ
  pub success : Bool

abbrev pub error_outcome : EnchantOutcome
error_outcome = record {
  code = code_error;
  system_msg = sys_msg_inappropriate_enchant;
  target = none;
  target_destroyed = false;
  scroll = none;
  scroll_removed = false;
  new_enchant_level = 0;
  success = false;
}

-- `outcome`, before anything is consumed.
abbrev pub outcome_of : EnchantDecision → EnchantOutcome
outcome_of decision = record error_outcome {
  code = decision.code;
  system_msg = decision.system_msg;
  new_enchant_level = decision.new_level;
  success = is_success decision.code;
}

-- The scroll that the caller holds is changed in place: it is given back.
unfoldable pub consume_scroll : Item → Query Item
consume_scroll scroll =
    let left = record scroll { count = scroll.count - 1 } in
    if leb left.count 0
    then (delete_item scroll.object_id >>= λ _. return left)
    else (update left >>= λ _. return left)

unfoldable pub apply_target : EnchantDecision → Item → Item → Query (Option EnchantOutcome)
apply_target decision spent target =
    let outcome = record (outcome_of decision) {
      scroll = some spent;
      scroll_removed = leb spent.count 0;
      target = some target;
    } in
    let enchanted = record target { enchant_level = decision.new_level } in
    if decision.destroy_target
    then (delete_item target.object_id >>= λ _.
        return (some (record outcome { target_destroyed = true })))
    else (update enchanted >>= λ _. return (some (record outcome { target = some enchanted })))

unfoldable pub carry_out : EnchantDecision → Item → Item → Query (Option EnchantOutcome)
carry_out decision scroll target =
    if is_error decision.code
    then return (some (outcome_of decision))
    else (consume_scroll scroll >>= λ spent. apply_target decision spent target)

module _ {F : Type 0} where
  unfoldable pub decide_and_do :
      Float64 F
      → F
      → Item
      → Item
      → Option (EnchantScrollInfo F × EnchantTarget F)
      → Query (Option EnchantOutcome)
  decide_and_do fl rng scroll target none = return (some error_outcome)
  decide_and_do fl rng scroll target (some (s, t)) =
      carry_out (decide_enchant fl s t (fl.scale rng)) scroll target

  unfoldable pub attempt_on :
      Float64 F → Data F → F → Option (Item × Item) → Query (Option EnchantOutcome)
  attempt_on fl d rng none = return (some error_outcome)
  attempt_on fl d rng (some (scroll, target)) =
      decide_and_do fl rng scroll target (attempt_conditions d scroll target)

  unfoldable pub attempt : Float64 F → Data F → F → ℕ → ℕ → ℕ → Query (Option EnchantOutcome)
  attempt fl d rng char_id scroll_id target_id = get_by_object_id scroll_id >>= λ scroll.
      get_by_object_id target_id >>= λ target.
      attempt_on fl d rng (both_owned char_id scroll target)

  -- `rng` is the number drawn, if one is.
  unfoldable pub enchant_item :
      Float64 F
      → Data F
      → F
      → Armed
      → Store
      → ℕ
      → ℕ
      → Outcome (Option EnchantOutcome) × Armed × Store
  enchant_item fl d rng r st char_id target_id = elim (get_active r char_id) [
    | none ↦ (ok none, clear r char_id, st)
    | some a ↦
        if target_id == 0
        then (ok none, clear r char_id, st)
        else (let (o, st') = attempt fl d rng char_id a.scroll_object_id target_id st in
            (o, clear r char_id, st'))
  ]
