-- ===== src/Enchant/Rules.antt =====
-- What a decision of `decide_enchant` can be.
use l2go.Prelude.{◌+◌, ◌≤◌, ◌≡◌, Bool, true, false, ◌&&◌, ◌||◌, ◌⊎◌, not, arith}
use l2go.Enchant.{
  Float64, EnchantScrollInfo, EnchantTarget, EnchantResultCode, code_success, code_error,
  code_fail_destroy, validate_enchant, decide_enchant, decide_failure,
}

abbrev pub is_error : EnchantResultCode → Bool
is_error code_error = true
is_error _ = false

abbrev pub is_success : EnchantResultCode → Bool
is_success code_success = true
is_success _ = false

abbrev pub is_destroy : EnchantResultCode → Bool
is_destroy code_fail_destroy = true
is_destroy _ = false

-- Whatever the roll, an attempt is an error exactly when the scroll does not fit, and exactly
-- then the scroll is kept; the item is destroyed only with the code for it, and never by a safe or a
-- blessed scroll; and the new level is at most one more, and at most one more than the scroll's cap
-- unless the scroll has none or the attempt is an error.
pub decide_enchant_sound :
    {F : Type 0} (fl : Float64 F) (s : EnchantScrollInfo F) (t : EnchantTarget F) (roll : F)
    → let d = decide_enchant fl s t roll in
      (is_error d.code ≡ not (validate_enchant s t))
      × (d.consume_scroll ≡ validate_enchant s t)
      × (d.destroy_target ≡ is_destroy d.code)
      × (((s.is_safe || s.is_blessed) && d.destroy_target) ≡ false)
      × (d.new_level ≤ t.level + 1)
      × ((d.new_level ≤ s.max_enchant + 1) ⊎ ((s.max_enchant ≡ 0) ⊎ (is_error d.code ≡ true)))
unfolding decide_enchant decide_failure validate_enchant
decide_enchant_sound fl s t roll =
    (ground arith, ground arith, ground arith, ground arith, ground arith, ground arith)
