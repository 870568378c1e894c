-- ===== src/Registry/Targets/Tests.antt =====
-- Two characters aim at one object, one turns away, the object leaves.
use l2go.Prelude.{nat_eq, ◌≡◌, refl, not, ◌&&◌, List, [], ◌∷◌, ◌==◌}
use l2go.Prelude.Dict.{lookup, insert, delete}
use l2go.Prelude.Nested.{contains, nested_insert, nested_delete}
use l2go.Registry.Targets.{new_target_index, set_target, targeters_of, link, unlink}
use l2go.Registry.Targets.Laws.{Change, sets, run, apply, aims, targeters_of-run}

abbrev changes : List Change
changes = sets 1 9 ∷ sets 2 9 ∷ sets 1 8 ∷ []

listed_twice : targeters_of (run new_target_index changes) 9 ≡ 2 ∷ []
unfolding targeters_of run apply set_target link unlink lookup insert delete nested_insert
    nested_delete
listed_twice = refl

targeters_of-run_example :
    contains (targeters_of (run new_target_index changes) 9) 2
    ≡ (not (◌==◌ 9 0) && (aims (λ k. 0) changes 2 == 9))
targeters_of-run_example = targeters_of-run changes 2 9
