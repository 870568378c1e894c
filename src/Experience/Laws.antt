-- ===== src/Experience/Laws.antt =====
-- A level is reached exactly when its threshold is.
use l2go.Prelude.{
  ℕ, zero, suc, ◌+◌, ◌≤◌, ◌<◌, ◌≡◌, ◌↔◌, refl, leb, min, arith, inl, inr, Bool-cases,
}
use l2go.Experience.{
  max_level, exp_at, exp_for_level, level_from, level_for_exp, exp_to_next_level, Progress,
  capped_level, award,
}
use l2go.Experience.Table.{exp_at_mono}

level_from-bound : (n e : ℕ) → level_from (suc n) e ≤ suc n
unfolding level_from
level_from-bound zero e = ground arith
level_from-bound (suc n) e = ground (arith, level_from-bound n e)

level_from-reached :
    (n e l : ℕ) → 1 ≤ l → l ≤ suc n → suc n ≤ 87 → (l ≤ level_from (suc n) e) ↔ (exp_at l ≤ e)
unfolding level_from
level_from-reached zero e l one le small =
    let start : exp_at 1 ≡ 0 = unfold exp_at in refl in
    ground (arith, start, exp_at_mono l 1 le small)
level_from-reached (suc n) e l one le small = elim (Bool-cases (leb l (suc n))) [
  | inl below ↦
      let ih = level_from-reached n e l one (ground arith) (omega arith) in
      ground (arith, ih, exp_at_mono l (suc (suc n)) le small)
  | inr top ↦
      let same : l ≡ suc (suc n) = ground arith in rw same (ground (arith, level_from-bound n e))
]

level_from-positive : (n e : ℕ) → 1 ≤ level_from n e
unfolding level_from
level_from-positive zero e = omega arith
level_from-positive (suc n) e = ground (arith, level_from-positive n e)

-- A character's total experience puts it at a level or above exactly when it reaches that level's
-- threshold, for every level of the table.
pub level_for_exp-reached :
    (e l : ℕ) → 1 ≤ l → l ≤ 87 → (l ≤ level_for_exp e) ↔ (exp_for_level l ≤ e)
unfolding level_for_exp exp_for_level
level_for_exp-reached e l one le = ground (arith, level_from-reached 86 e l one le (omega arith))

level_for_exp_mono : (e e' : ℕ) → e ≤ e' → level_for_exp e ≤ level_for_exp e'
unfolding level_for_exp
level_for_exp_mono e e' le =
    let l = level_from 87 e in
    let reached =
      level_from-reached 86 e l (level_from-positive 87 e) (level_from-bound 86 e) (omega arith) in
    let reached' =
      level_from-reached 86 e' l (level_from-positive 87 e) (level_from-bound 86 e) (omega arith) in
    ground (arith, reached, reached')

-- Below the highest level, earning what is said to be left reaches the next level, and no less does.
pub level_for_exp-exp_to_next_level :
    (level e earned : ℕ)
    → level < max_level
    → (level + 1 ≤ level_for_exp (e + earned)) ↔ (exp_to_next_level level e ≤ earned)
unfolding exp_to_next_level exp_for_level
level_for_exp-exp_to_next_level level e earned lt =
    ground (arith, level_for_exp-reached (e + earned) (level + 1) (omega arith) (omega arith))

-- An award never lowers the level and never lifts it beyond the highest, and a level that was the one
-- of the experience, up to the highest, still is.
pub award-level :
    (p : Progress) (earned : ℕ)
    → p.level ≡ min max_level (level_for_exp p.experience)
    → let p' = award p earned in
      (p.level ≤ p'.level)
      × (p'.level ≤ max_level)
      × (p'.level ≡ min max_level (level_for_exp p'.experience))
unfolding award capped_level
award-level p earned h =
    ground (arith, level_for_exp_mono p.experience (p.experience + earned) (omega arith))
