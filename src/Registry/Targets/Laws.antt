-- ===== src/Registry/Targets/Laws.antt =====
-- The index refines a function from each targeter to its target.
use l2go.Prelude.{
  ℕ, ◌≡◌, refl, ◌∙◌, inl, inr, not, ◌&&◌, List, [], ◌∷◌, arith, ◌==◌, if◌then◌else◌, nat_eq,
  Option-cases,
}
use l2go.Prelude.Dict.{Dict, lookup, delete, lookup-insert, lookup-delete}
use l2go.Prelude.Nested.{
  nested_lookup, nested_delete, nested_lookup-insert, nested_lookup-delete, or_empty, keys, is_some,
  contains, contains-keys,
}
use l2go.Registry.Targets.{
  TargetIndex, new_target_index, or_zero, unlink, link, set_target, forget, drop_target,
  targeters_of,
}

pub data Change : Type 0 where
  sets : ℕ → ℕ → Change
  drops : ℕ → Change

unfoldable pub apply : TargetIndex → Change → TargetIndex
apply ti (sets targeter target) = set_target ti targeter target
apply ti (drops object_id) = drop_target ti object_id

unfoldable pub run : TargetIndex → List Change → TargetIndex
run ti [] = ti
run ti (c ∷ cs) = run (apply ti c) cs

-- The promise: each targeter has one target at a time, 0 for none, and a target that leaves is
-- nobody's.
abbrev pub Aims : Type 0
Aims = ℕ → ℕ

pub aim : Aims → Change → Aims
aim f (sets targeter target) = λ c. if targeter == c then target else f c
aim f (drops object_id) = λ c. if f c == object_id then 0 else f c

pub aims : Aims → List Change → Aims
aims f [] = f
aims f (c ∷ cs) = aims (aim f c) cs

pub record Refines (ti : TargetIndex) (f : Aims) : Type 0 where
  pub aimed : (c : ℕ) → or_zero (lookup c ti.current) ≡ f c
  pub listed : (c t : ℕ) → is_some (nested_lookup t c ti.targeters) ≡ (not (t == 0) && (f c == t))

set_target-Refines :
    (ti : TargetIndex) (f : Aims) (targeter target : ℕ)
    → Refines ti f
    → Refines (set_target ti targeter target) (aim f (sets targeter target))
unfolding set_target unlink link aim
set_target-Refines ti f targeter target r = record {
  aimed = λ c. ground (
    arith,
    r.aimed c,
    r.aimed targeter,
    lookup-insert targeter c target ti.current,
    lookup-delete targeter c ti.current,
  );
  listed = λ c t.
      let old = or_zero (lookup targeter ti.current) in
      ground (
        arith,
        r.aimed targeter,
        r.listed c t,
        nested_lookup-delete old t targeter c ti.targeters,
        nested_lookup-insert target t targeter c tt ti.targeters,
        nested_lookup-insert target t targeter c tt (nested_delete old targeter ti.targeters),
      );
}

forget_lem :
    (ids : List ℕ) (o : ℕ) (current : Dict ℕ ℕ) (c : ℕ)
    → or_zero (lookup c (forget ids o current)) ≡ (
        if contains ids c && (or_zero (lookup c current) == o)
        then 0
        else or_zero (lookup c current))
unfolding forget contains
forget_lem [] o current c = refl
forget_lem (k ∷ ids) o current c = ground (
  arith,
  forget_lem ids o current c,
  forget_lem ids o (delete k current) c,
  lookup-delete k c current,
)

drop_target-Refines :
    (ti : TargetIndex) (f : Aims) (o : ℕ)
    → Refines ti f
    → Refines (drop_target ti o) (aim f (drops o))
unfolding aim drop_target nested_lookup lookup
drop_target-Refines ti f o r = elim (Option-cases (lookup o ti.targeters)) [
  | inl none_there ↦
      rw (none_there, drop_target)
        (record {
          aimed = λ c. ground (arith, r.aimed c, r.listed c o);
          listed = λ c t. ground (arith, r.listed c o, r.listed c t);
        })
  | inr (s, found) ↦
      rw (found, drop_target)
        (record {
          aimed = λ c. ground (
            arith,
            r.aimed c,
            r.listed c o,
            forget_lem (keys s) o ti.current c,
            contains-keys s c,
          );
          listed =
              λ c t. ground (arith, r.listed c o, r.listed c t, lookup-delete o t ti.targeters);
        })
]

run-Refines :
    (ti : TargetIndex) (f : Aims) (cs : List Change)
    → Refines ti f
    → Refines (run ti cs) (aims f cs)
unfolding run aims apply
run-Refines ti f [] r = r
run-Refines ti f (sets targeter target ∷ cs) r =
    run-Refines (set_target ti targeter target) (aim f (sets targeter target)) cs
      (set_target-Refines ti f targeter target r)
run-Refines ti f (drops o ∷ cs) r =
    run-Refines (drop_target ti o) (aim f (drops o)) cs (drop_target-Refines ti f o r)

new-Refines : Refines new_target_index (λ c. 0)
unfolding nested_lookup lookup
new-Refines = record { aimed = λ c. refl; listed = λ c t. ground arith }

-- After any sequence of target changes and departures from an empty index, the characters listed
-- for an object are exactly those whose last target it is, where an object that left is nobody's
-- target; object 0 means no target and lists nobody.
pub targeters_of-run :
    (cs : List Change) (c t : ℕ)
    → contains (targeters_of (run new_target_index cs) t) c
      ≡ (not (t == 0) && (aims (λ k. 0) cs c == t))
unfolding targeters_of nested_lookup
targeters_of-run cs c t =
    let r = run-Refines new_target_index (λ k. 0) cs new-Refines in
    contains-keys (or_empty (lookup t (run new_target_index cs).targeters)) c ∙ r.listed c t
