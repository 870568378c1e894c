-- ===== src/Registry/Reuse.antt =====
-- ItemReuseRegistry of internal/gameserver/registry/itemreuse.go. Times and durations are numbers of
-- nanoseconds. Every test of a duration or a group is against 0 from below, so that 0 stands for
-- the negative ones.
pub mod Laws
mod Tests
use l2go.Prelude.{ℕ, ◌+◌, ◌-◌, Option, none, some, List, [], ◌∷◌, ◌==◌, if◌then◌else◌, ltb, nat_eq}
use l2go.Prelude.Dict.{Dict, lookup, delete}
use l2go.Prelude.Nested.{Nested, nested_lookup, nested_insert, or_empty}

pub record Stamp : Type 0 where
  pub until : ℕ
  pub total : ℕ
  pub group : ℕ

-- charID -> item objectID -> stamp.
abbrev pub Cooldowns : Type 0
Cooldowns = Nested ℕ ℕ Stamp

pub add : Cooldowns → ℕ → ℕ → ℕ → ℕ → ℕ → Cooldowns
add r char_id object_id group total now =
    if total == 0
    then r
    else nested_insert char_id object_id
        (record { until = now + total; total = total; group = group }) r

-- `st.end.Sub(now)`, where it is positive.
abbrev pub left : Stamp → ℕ → ℕ
left st now = st.until - now

abbrev pub left_or_zero : Option Stamp → ℕ → ℕ
left_or_zero none now = 0
left_or_zero (some st) now = left st now

pub remaining_by_item : Cooldowns → ℕ → ℕ → ℕ → ℕ
remaining_by_item r char_id object_id now = left_or_zero (nested_lookup char_id object_id r) now

-- The loop, with the best so far.
pub best_of : ℕ → ℕ → ℕ → Dict ℕ Stamp → ℕ
best_of group now best [] = best
best_of group now best ((id, st) ∷ m) =
    best_of group now
      (if st.group == group then (if ltb best (left st now) then left st now else best) else best) m

pub remaining_by_group : Cooldowns → ℕ → ℕ → ℕ → ℕ
remaining_by_group r char_id group now =
    if group == 0 then 0 else best_of group now 0 (or_empty (lookup char_id r))

pub clear_reuse : Cooldowns → ℕ → Cooldowns
clear_reuse r char_id = delete char_id r
