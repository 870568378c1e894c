-- ===== src/Enchant/Flow/Window.antt =====
-- The window and the attempt agree: what the one takes the other does not refuse.
use l2go.Prelude.{
  ℕ, ◌≡◌, ◌≢◌, refl, Bool, true, false, not, ◌&&◌, Option, none, some, [], ◌==◌, nat_eq, arith,
}
use l2go.Prelude.Dict.{lookup}
use l2go.Prelude.Nested.{is_some}
use l2go.Items.{Item}
use l2go.Items.Store.{Store, Rows, Outcome, ok, failed, get_by_object_id}
use l2go.Enchant.{
  Float64, decide_enchant, EnchantResultCode, validate_enchant, EnchantScrollInfo, EnchantTarget,
  ScrollClass,
}
use l2go.Enchant.Rules.{is_error, decide_enchant_sound}
use l2go.Enchant.Conditions.{
  ItemTemplate, EnchantScrollData, Data, window_conditions, attempt_conditions, scroll_info,
  target_info,
}
use l2go.Enchant.Flow.{
  Armed, ActiveEnchant, get_active, PutEnchantResult, put_enchant_accepted, validate_target,
  window_query, check_window, judge,
}
use l2go.Enchant.Flow.Attempt.{attempt, attempt_on, decide_and_do, enchant_item}
use l2go.Enchant.Flow.Laws.{both_owned_lem}
use l2go.Enchant.Flow.Rows.{reported, carry_out_complete}

-- Some code other than an error, and an error.
abbrev pub succeeds : Option EnchantResultCode → Bool
succeeds none = false
succeeds (some c) = not (is_error c)

abbrev pub accepts : PutEnchantResult → Bool
accepts put_enchant_accepted = true
accepts _ = false

abbrev pub accepted : Outcome PutEnchantResult → Bool
accepted (ok p) = accepts p
accepted failed = false

decided :
    {F : Type 0} (fl : Float64 F) (rng : F) (scroll target : Item) (r : Rows)
    (s : EnchantScrollInfo F) (t : EnchantTarget F)
    → succeeds (
        reported
          (decide_and_do fl rng scroll target (some (s, t)) (record { rows = r; faults = [] })).0)
      ≡ validate_enchant s t
unfolding decide_and_do
decided fl rng scroll target r s t = ground (
  arith,
  (carry_out_complete (decide_enchant fl s t (fl.scale rng)) scroll target r).0,
  (decide_enchant_sound fl s t (fl.scale rng)).0,
)

refused :
    {F : Type 0} (fl : Float64 F) (rng : F) (scroll target : Item) (r : Rows)
    → succeeds
        (reported (decide_and_do fl rng scroll target none (record { rows = r; faults = [] })).0)
      ≡ false
unfolding decide_and_do
refused fl rng scroll target r = refl

verdict :
    {F : Type 0} (zero_chance : F) (c : ScrollClass) (sd : EnchantScrollData F)
    (tmpl : ItemTemplate) (target : Item) (base : F)
    → accepts (judge (some (scroll_info c sd, target_info tmpl target zero_chance)))
      ≡ validate_enchant (scroll_info c sd) (target_info tmpl target base)
unfolding judge validate_enchant target_info
verdict zero_chance c sd tmpl target base = ground arith

judged_none : (F : Type 0) → accepts (judge {F = F} none) ≡ false
unfolding judge
judged_none F = refl

-- Whether the table of chances has an entry for the scroll's group and the item.
pub has_chance : {F : Type 0} → Data F → Item → Item → Bool
has_chance d scroll target = elim (d.item_template target.item_id) [
  | none ↦ false
  | some tmpl ↦ elim (d.get_enchant_scroll scroll.item_id) [
    | none ↦ false
    | some sd ↦ is_some (
        d.chance sd.scroll_group_id tmpl.body_part_code tmpl.is_magic_weapon target.item_id
          target.enchant_level)
  ]
]

-- The two lists of conditions give the same verdict, but for the chance.
same_verdict :
    {F : Type 0} (fl : Float64 F) (d : Data F) (rng zero_chance : F) (scroll target : Item)
    (r : Rows)
    → succeeds (
        reported
          (decide_and_do fl rng scroll target
            (attempt_conditions d scroll target)
            (record { rows = r; faults = [] })).0)
      ≡ (accepts (judge (window_conditions d zero_chance scroll target))
          && has_chance d scroll target)
unfolding attempt_conditions window_conditions has_chance
same_verdict fl d rng zero_chance scroll target r =
    grind (arith, decided, refused, verdict, judged_none)

-- With both rows there and owned by the armed character and no failing call, the attempt is carried
-- out, which is that the code it reports is one other than an error, exactly when the window accepts
-- the item and the table of chances has an entry for the scroll's group and the item: the window
-- does not look there, so it accepts items that the attempt refuses.
pub enchant_item-validate_target :
    {F : Type 0} (fl : Float64 F) (d : Data F) (rng zero_chance : F) (armed : Armed) (r : Rows)
    (char_id target_id : ℕ) (a : ActiveEnchant) (scroll target : Item)
    → get_active armed char_id ≡ some a
    → target_id ≢ 0
    → lookup a.scroll_object_id r ≡ some scroll
    → lookup target_id r ≡ some target
    → scroll.owner_id ≡ char_id
    → target.owner_id ≡ char_id
    → let st : Store = record { rows = r; faults = [] } in
      succeeds (reported (enchant_item fl d rng armed st char_id target_id).0) ≡ (
        accepted (validate_target d zero_chance armed st char_id target_id).0
        && has_chance d scroll target)
unfolding enchant_item attempt attempt_on validate_target window_query check_window get_by_object_id
enchant_item-validate_target fl d rng zc armed r c j a scroll target ha ht hs hr os ot =
    let nonzero : (j == 0) ≡ false = ground arith in
    rw
      (
        ha,
        nonzero,
        hs,
        hr,
        both_owned_lem c scroll target os ot,
        enchant_item,
        attempt,
        attempt_on,
        validate_target,
        check_window,
      )
      (same_verdict fl d rng zc scroll target r)
