-- ===== src/Enchant/Tests.antt =====
-- A blessed scroll that fails on a +5 sword.
use l2go.Prelude.{◌+◌, ◌≤◌, ◌≡◌, refl, ◌⊎◌, min, true, false, ◌&&◌, not, ltb, ℕ}
use l2go.Enchant.{
  Float64, EnchantScrollInfo, EnchantTarget, type2_weapon, decide_enchant, decide_failure,
  validate_enchant, enchant_type_matches,
}
use l2go.Enchant.Rules.{is_error, is_destroy, decide_enchant_sound}

abbrev numbers : Float64 ℕ
numbers = record { add = ◌+◌; minimum = min; less = ltb; hundred = 100; scale = λ n. n }

abbrev blessed_scroll : EnchantScrollInfo ℕ
blessed_scroll = record {
  is_weapon = true;
  is_blessed = true;
  is_safe = false;
  target_grade = 1;
  max_enchant = 16;
  bonus_rate = 0;
}

abbrev sword : EnchantTarget ℕ
sword = record { type2 = type2_weapon; grade = 1; level = 5; enchantable = true; base_chance = 66 }

back_to_zero : (decide_enchant numbers blessed_scroll sword 90).new_level ≡ 0
unfolding decide_enchant decide_failure validate_enchant enchant_type_matches
back_to_zero = refl

decide_enchant_sound_example :
    let d = decide_enchant numbers blessed_scroll sword 90 in
    (is_error d.code ≡ not (validate_enchant blessed_scroll sword))
    × (d.consume_scroll ≡ validate_enchant blessed_scroll sword)
    × (d.destroy_target ≡ is_destroy d.code)
    × ((true && d.destroy_target) ≡ false)
    × (d.new_level ≤ 6)
    × ((d.new_level ≤ 17) ⊎ ((blessed_scroll.max_enchant ≡ 0) ⊎ (is_error d.code ≡ true)))
decide_enchant_sound_example = decide_enchant_sound numbers blessed_scroll sword 90
