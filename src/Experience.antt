-- ===== src/Experience.antt =====
-- internal/gameserver/data/experience.go, and what awardExpForNPCKill of gameloop/experience.go does
-- with what one player earned. A level below 0 and an experience below 0 are tested against 0 or 1
-- from below only, so that 0 stands for them. Sums are those of ℕ: the thresholds are below 2 ^ 35,
-- far from where an int64 wraps.
pub mod Table
pub mod Laws
mod Tests
use l2go.Prelude.{
  ℕ, zero, suc, ◌+◌, ◌-◌, Bool, true, false, ◌||◌, List, [], ◌∷◌, ltb, leb, if◌then◌else◌, get_or,
}

abbrev pub exp_table : List ℕ
exp_table =
    0 ∷ 0 ∷ 68 ∷ 363 ∷ 1168 ∷ 2884 ∷ 6038 ∷ 11287 ∷ 19423 ∷ 31378 ∷ 48229 ∷ 71202 ∷ 101677 ∷ 141193
    ∷ 191454 ∷ 254330 ∷ 331867 ∷ 426288 ∷ 540000 ∷ 675596 ∷ 835862 ∷ 1023784 ∷ 1242546 ∷ 1495543
    ∷ 1786379 ∷ 2118876 ∷ 2497077 ∷ 2925250 ∷ 3407897 ∷ 3949754 ∷ 4555796 ∷ 5231246 ∷ 5981576
    ∷ 6812513 ∷ 7730044 ∷ 8740422 ∷ 9850166 ∷ 11066072 ∷ 12395215 ∷ 13844951 ∷ 15422929 ∷ 17137087
    ∷ 18995665 ∷ 21007203 ∷ 23180550 ∷ 25524868 ∷ 28049635 ∷ 30764654 ∷ 33680052 ∷ 36806289
    ∷ 40154162 ∷ 45525133 ∷ 51262490 ∷ 57383988 ∷ 63907911 ∷ 70853089 ∷ 80700831 ∷ 91162654
    ∷ 102265881 ∷ 114038596 ∷ 126509653 ∷ 146308200 ∷ 167244337 ∷ 189364894 ∷ 212717908 ∷ 237352644
    ∷ 271975263 ∷ 308443198 ∷ 346827154 ∷ 387199547 ∷ 429634523 ∷ 474207979 ∷ 532694979 ∷ 606322775
    ∷ 696381369 ∷ 804225364 ∷ 931275828 ∷ 1151275834 ∷ 1511275834 ∷ 2044287599 ∷ 3075966164
    ∷ 4295351949 ∷ 5766985062 ∷ 7793077345 ∷ 10235368963 ∷ 13180481103 ∷ 16890558728 ∷ 21138534249
    ∷ []

abbrev pub max_level : ℕ
max_level = 85

-- The callers stay inside the table.
pub exp_at : ℕ → ℕ
exp_at level = get_or exp_table level 0

pub exp_for_level : ℕ → ℕ
exp_for_level level = if ltb level 1 || ltb 87 level then 0 else exp_at level

-- The loop, from a level down to 1.
pub level_from : ℕ → ℕ → ℕ
level_from zero total_exp = 1
level_from (suc n) total_exp =
    let rest = level_from n total_exp in if leb (exp_at (suc n)) total_exp then suc n else rest

pub level_for_exp : ℕ → ℕ
level_for_exp total_exp = level_from 87 total_exp

pub exp_to_next_level : ℕ → ℕ → ℕ
exp_to_next_level level exp = if leb max_level level then 0 else exp_at (level + 1) - exp

pub record Progress : Type 0 where
  pub level : ℕ
  pub experience : ℕ

pub capped_level : ℕ → ℕ
capped_level exp = if ltb max_level (level_for_exp exp) then max_level else level_for_exp exp

-- The player's progress after an award.
pub award : Progress → ℕ → Progress
award p earned =
    let exp = p.experience + earned in
    record {
      experience = exp;
      level = if ltb p.level (capped_level exp) then capped_level exp else p.level;
    }
