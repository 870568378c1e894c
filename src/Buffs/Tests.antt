-- ===== src/Buffs/Tests.antt =====
-- Two speed buffs: the weaker does not replace the stronger.
use l2go.Prelude.{ℕ, ◌≡◌, refl, false, List, [], ◌∷◌, arith}
use l2go.Prelude.Int.{pos}
use l2go.Buffs.{BuffInfo, index_of, drop_skill, replace_at, stack, add_buff}
use l2go.Buffs.Counts.{count}
use l2go.Buffs.Laws.{OneEach, add_buff-OneEach}

abbrev wind_walk : BuffInfo ℕ
wind_walk = record {
  skill_id = 1204;
  skill_level = 2;
  abnormal_type = "SPEED_UP";
  abnormal_lvl = pos 2;
  mods = 33 ∷ [];
  expires_at = 1200;
}

abbrev weaker : BuffInfo ℕ
weaker = record wind_walk { skill_id = 1282; abnormal_lvl = pos 1 }

abbrev buffs : List (BuffInfo ℕ)
buffs = wind_walk ∷ []

refused : add_buff buffs weaker ≡ (false, wind_walk ∷ [])
unfolding add_buff drop_skill stack replace_at index_of
refused = refl

buffs-OneEach : OneEach buffs
unfolding count
buffs-OneEach = record { skills = λ s. ground arith; types = λ t. ground arith }

add_buff-OneEach_example : OneEach (add_buff buffs weaker).1
add_buff-OneEach_example = add_buff-OneEach buffs weaker buffs-OneEach
