-- ===== src/Experience/Tests.antt =====
-- Around the threshold of level 20.
use l2go.Prelude.{◌≤◌, ◌≡◌, ◌↔◌, refl, arith}
use l2go.Experience.{exp_at, exp_for_level, level_from, level_for_exp}
use l2go.Experience.Laws.{level_for_exp-reached}

one_short : level_for_exp 835861 ≡ 19
unfolding level_for_exp level_from exp_at
one_short = refl

level_for_exp-reached_example : (20 ≤ level_for_exp 900000) ↔ (exp_for_level 20 ≤ 900000)
level_for_exp-reached_example = level_for_exp-reached 900000 20 (ground arith) (ground arith)
