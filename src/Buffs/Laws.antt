-- ===== src/Buffs/Laws.antt =====
-- Stacking keeps one buff to a skill and one to a stacking type.
use text.Mathlib.TextEquality.{eq_iff}
use mathlib.Core.Path.{subst}
use l2go.Prelude.{
  ℕ, ◌+◌, ◌≤◌, ◌≡◌, refl, ◌⊎◌, Bool, true, false, List, [], ◌∷◌, String, inl, inr, Option-cases,
  Bool-cases, arith,
}
use l2go.Buffs.{
  BuffInfo, stacks, is_skill, is_type, index_of, remove_at, drop_skill, replace_at, stack, add_buff,
  remove_skill, is_over, remove_expired,
}
use l2go.Buffs.Counts.{bit, count, count-append, index_of-none, index_of-some, remove_expired-count}

module _ {M : Type 0} where
  pub record OneEach (bs : List (BuffInfo M)) : Type 0 where
    pub skills : (skill : ℕ) → count (is_skill skill) bs ≤ 1
    pub types : (t : String) → (stacks t ≡ false) ⊎ (count (is_type t) bs ≤ 1)

  drop_skill-fewer :
      (p : BuffInfo M → Bool) (skill : ℕ) (bs : List (BuffInfo M))
      → count p (drop_skill skill bs) ≤ count p bs
  unfolding drop_skill
  drop_skill-fewer p skill bs = elim (Option-cases (index_of (is_skill skill) bs)) [
    | inl missing ↦ rw (missing, drop_skill) (omega arith)
    | inr (i, found) ↦
        let (b, at, hit, sum) = index_of-some (is_skill skill) p bs i found in
        rw (found, drop_skill) (omega arith)
  ]

  drop_skill-none :
      (skill : ℕ) (bs : List (BuffInfo M))
      → OneEach bs
      → count (is_skill skill) (drop_skill skill bs) ≡ 0
  unfolding drop_skill
  drop_skill-none skill bs one = elim (Option-cases (index_of (is_skill skill) bs)) [
    | inl missing ↦ rw (missing, drop_skill) (index_of-none (is_skill skill) bs missing)
    | inr (i, found) ↦
        let (b, at, hit, sum) = index_of-some (is_skill skill) (is_skill skill) bs i found in
        rw (found, drop_skill) (ground (arith, sum, hit, one.skills skill))
  ]

  -- What stacking makes of the list, once the skill's old buff is gone: it adds the buff, if it adds
  -- it, and the count of its type does not grow beyond one.
  abbrev Stacked :
      (BuffInfo M → Bool) → BuffInfo M → List (BuffInfo M) → Bool × List (BuffInfo M) → Type 0
  Stacked p b bs (added, bs') =
      (count p bs' ≤ count p bs + bit (p b)) × ((added ≡ false) ⊎ (bit (p b) ≤ count p bs'))

  stack-Stacked :
      (p : BuffInfo M → Bool) (b : BuffInfo M) (bs : List (BuffInfo M))
      → Stacked p b bs (stack b bs)
  unfolding stack
  stack-Stacked p b bs = elim (Bool-cases (stacks b.abnormal_type)) [
    | inr free ↦ rw (free, stack) (ground (arith, count-append p bs b))
    | inl kind ↦ elim (Option-cases (index_of (is_type b.abnormal_type) bs)) [
      | inl missing ↦ rw (kind, missing, stack) (ground (arith, count-append p bs b))
      | inr (i, found) ↦
          let (x, at, hit, sum) = index_of-some (is_type b.abnormal_type) p bs i found in
          rw (kind, found, at, stack)
            (unfold replace_at in ground (arith, count-append p (remove_at i bs) b))
    ]
  ]

  stack-type :
      (b : BuffInfo M) (bs : List (BuffInfo M))
      → stacks b.abnormal_type ≡ true
      → count (is_type b.abnormal_type) bs ≤ 1
      → count (is_type b.abnormal_type) (stack b bs).1 ≤ 1
  unfolding stack
  stack-type b bs kind one = elim (Option-cases (index_of (is_type b.abnormal_type) bs)) [
    | inl missing ↦
        let zero' = index_of-none (is_type b.abnormal_type) bs missing in
        rw (kind, missing, stack) (ground (arith, count-append (is_type b.abnormal_type) bs b))
    | inr (i, found) ↦
        let (x, at, hit, sum) =
          index_of-some (is_type b.abnormal_type) (is_type b.abnormal_type) bs i found in
        rw (kind, found, at, stack)
          (unfold replace_at in
            ground (arith, count-append (is_type b.abnormal_type) (remove_at i bs) b))
  ]

  own_type :
      (b : BuffInfo M) (bs : List (BuffInfo M))
      → OneEach bs
      → (stacks b.abnormal_type ≡ false)
        ⊎ (count (is_type b.abnormal_type) (stack b (drop_skill b.skill_id bs)).1 ≤ 1)
  own_type b bs one = elim (Bool-cases (stacks b.abnormal_type)) [
    | inr free ↦ inl free
    | inl kind ↦
        let fewer = drop_skill-fewer (is_type b.abnormal_type) b.skill_id bs in
        let le : count (is_type b.abnormal_type) (drop_skill b.skill_id bs) ≤ 1 =
          elim (one.types b.abnormal_type) [
            | inl free ↦ absurd (ground (arith, free, kind))
            | inr le ↦ omega (arith, le, fewer)
          ] in
        inr (stack-type b (drop_skill b.skill_id bs) kind le)
  ]

  -- Adding a buff keeps at most one buff of each skill and of each stacking type.
  pub add_buff-OneEach :
      (bs : List (BuffInfo M)) (b : BuffInfo M) → OneEach bs → OneEach (add_buff bs b).1
  unfolding add_buff
  add_buff-OneEach bs b one = record {
    skills = λ s. ground (
      arith,
      one.skills s,
      drop_skill-fewer (is_skill s) b.skill_id bs,
      drop_skill-none b.skill_id bs one,
      stack-Stacked (is_skill s) b (drop_skill b.skill_id bs),
    );
    types = λ t. elim (Bool-cases (is_type t b)) [
      | inl same ↦
          subst
            (λ u.
              (stacks u ≡ false) ⊎ (count (is_type u) (stack b (drop_skill b.skill_id bs)).1 ≤ 1))
            ((eq_iff b.abnormal_type t).0 same) (own_type b bs one)
      | inr other ↦ ground (
        arith,
        one.types t,
        drop_skill-fewer (is_type t) b.skill_id bs,
        (stack-Stacked (is_type t) b (drop_skill b.skill_id bs)).0,
      )
    ];
  }

  fewer-OneEach :
      (bs bs' : List (BuffInfo M))
      → ((p : BuffInfo M → Bool) → count p bs' ≤ count p bs)
      → OneEach bs
      → OneEach bs'
  fewer-OneEach bs bs' fewer one = record {
    skills = λ s. omega (arith, fewer (is_skill s), one.skills s);
    types = λ t. ground (arith, fewer (is_type t), one.types t);
  }

  remove_skill-drop_skill :
      (bs : List (BuffInfo M)) (skill : ℕ) → (remove_skill bs skill).1 ≡ drop_skill skill bs
  unfolding remove_skill drop_skill
  remove_skill-drop_skill bs skill = elim (Option-cases (index_of (is_skill skill) bs)) [
    | inl missing ↦ rw (missing, remove_skill, drop_skill) refl
    | inr (i, found) ↦ rw (found, remove_skill, drop_skill) refl
  ]

  -- Removing a skill's buff leaves none of it, and keeps one buff to each skill and stacking type.
  pub remove_skill-OneEach :
      (bs : List (BuffInfo M)) (skill : ℕ)
      → OneEach bs
      → let bs' = (remove_skill bs skill).1 in OneEach bs' × (count (is_skill skill) bs' ≡ 0)
  remove_skill-OneEach bs skill one = rw (remove_skill-drop_skill bs skill) (
    fewer-OneEach bs (drop_skill skill bs) (λ p. drop_skill-fewer p skill bs) one,
    drop_skill-none skill bs one,
  )

  kept-over : (now : ℕ) (bs : List (BuffInfo M)) → count (is_over now) (remove_expired now bs).1 ≡ 0
  unfolding remove_expired count
  kept-over now [] = refl
  kept-over now (b ∷ bs) = ground (arith, kept-over now bs)

  -- The expired buffs and those kept are together the buffs there were, the expired ones are all that
  -- are over, and those kept are one to each skill and stacking type.
  pub remove_expired-OneEach :
      (bs : List (BuffInfo M)) (now : ℕ)
      → OneEach bs
      → let (expired, kept) = remove_expired now bs in
        OneEach kept
        × (count (is_over now) kept ≡ 0)
        × (count (is_over now) expired ≡ count (is_over now) bs)
        × ((p : BuffInfo M → Bool) → count p expired + count p kept ≡ count p bs)
  remove_expired-OneEach bs now one = (
    fewer-OneEach bs (remove_expired now bs).1 (λ p. omega (arith, remove_expired-count p now bs))
        one,
    kept-over now bs,
    omega (arith, remove_expired-count (is_over now) now bs, kept-over now bs),
    λ p. remove_expired-count p now bs,
  )

  -- Whatever test is counted, adding a buff lets at most that buff more pass, and if the buff is
  -- reported as added and passes, one in the list does.
  pub add_buff_lem :
      (bs : List (BuffInfo M)) (b : BuffInfo M) (p : BuffInfo M → Bool)
      → let (added, bs') = add_buff bs b in
        (count p bs' ≤ count p bs + bit (p b)) × ((added ≡ false) ⊎ (bit (p b) ≤ count p bs'))
  unfolding add_buff
  add_buff_lem bs b p =
      let (most, present) = stack-Stacked p b (drop_skill b.skill_id bs) in
      (omega (arith, most, drop_skill-fewer p b.skill_id bs), present)
