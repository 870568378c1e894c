-- ===== src/Registry/Targets.antt =====
-- targetIndex of internal/gameserver/registry/targetindex.go: who is targeting what.
pub mod Laws
mod Tests
use l2go.Prelude.{ℕ, ◌≡◌, Option, none, some, List, [], ◌∷◌, not, ◌==◌, if◌then◌else◌, nat_eq}
use l2go.Prelude.Dict.{Dict, lookup, insert, delete}
use l2go.Prelude.Nested.{Nested, nested_insert, nested_delete, or_empty, keys}

pub record TargetIndex : Type 0 where
  pub current : Dict ℕ ℕ
  pub targeters : Nested ℕ ℕ (Unit {0})

abbrev pub new_target_index : TargetIndex
new_target_index = record { current = []; targeters = [] }

-- `ti.current[k]`, which is 0 when the key is missing.
abbrev pub or_zero : Option ℕ → ℕ
or_zero none = 0
or_zero (some t) = t

pub unlink : TargetIndex → ℕ → ℕ → TargetIndex
unlink ti targeter old =
    if not (old == 0) then record ti { targeters = nested_delete old targeter ti.targeters } else ti

pub link : TargetIndex → ℕ → ℕ → TargetIndex
link ti targeter new_target =
    if not (new_target == 0)
    then record ti {
      targeters = nested_insert new_target targeter tt ti.targeters;
      current = insert targeter new_target ti.current;
    }
    else record ti { current = delete targeter ti.current }

pub set_target : TargetIndex → ℕ → ℕ → TargetIndex
set_target ti targeter new_target =
    let old = or_zero (lookup targeter ti.current) in
    if old == new_target then ti else link (unlink ti targeter old) targeter new_target

-- The loop over the set of the target's targeters.
pub forget : List ℕ → ℕ → Dict ℕ ℕ → Dict ℕ ℕ
forget [] object_id current = current
forget (char_id ∷ ids) object_id current =
    forget ids object_id
      (if or_zero (lookup char_id current) == object_id then delete char_id current else current)

pub drop_target : TargetIndex → ℕ → TargetIndex
drop_target ti object_id = elim (lookup object_id ti.targeters) [
  | none ↦ ti
  | some s ↦ record {
    current = forget (keys s) object_id ti.current;
    targeters = delete object_id ti.targeters;
  }
]

pub targeters_of : TargetIndex → ℕ → List ℕ
targeters_of ti object_id = keys (or_empty (lookup object_id ti.targeters))
