-- ===== src/Registry/Reuse/Laws.antt =====
-- What is left of an item's cooldown, and of a group's.
use l2go.Prelude.{
  ℕ, ◌+◌, ◌-◌, ◌≤◌, ◌≡◌, ◌↔◌, refl, ◌&&◌, not, Option, none, some, List, [], ◌∷◌, ◌==◌,
  if◌then◌else◌, ltb, nat_eq, arith, All,
}
use l2go.Prelude.Dict.{Dict, lookup, delete}
use l2go.Prelude.Nested.{nested_lookup, nested_lookup-insert, nested_lookup-drop, or_empty}
use l2go.Registry.Reuse.{
  Stamp, Cooldowns, add, left, remaining_by_item, best_of, remaining_by_group, clear_reuse,
}

pub data Use : Type 0 where
  adds : ℕ → ℕ → ℕ → ℕ → ℕ → Use
  clears : ℕ → Use

pub run : Cooldowns → List Use → Cooldowns
run r [] = r
run r (adds c i g total now ∷ us) = run (add r c i g total now) us
run r (clears c ∷ us) = run (clear_reuse r c) us

-- When the cooldown of an item ends, 0 if it has none.
pub ends : (ℕ → ℕ → ℕ) → List Use → ℕ → ℕ → ℕ
ends f [] = f
ends f (adds c i g total now ∷ us) =
    ends (λ d j. if d == c && (j == i) && not (total == 0) then now + total else f d j) us
ends f (clears c ∷ us) = ends (λ d j. if d == c then 0 else f d j) us

abbrev until_or_zero : Option Stamp → ℕ
until_or_zero none = 0
until_or_zero (some st) = st.until

run-ends :
    (r : Cooldowns) (f : ℕ → ℕ → ℕ) (us : List Use)
    → ((c i : ℕ) → until_or_zero (nested_lookup c i r) ≡ f c i)
    → (c i : ℕ) → until_or_zero (nested_lookup c i (run r us)) ≡ ends f us c i
unfolding run ends add clear_reuse
run-ends r f [] h = h
run-ends r f (adds c i g total now ∷ us) h =
    run-ends (add r c i g total now)
      (λ d j. if d == c && (j == i) && not (total == 0) then now + total else f d j) us
      λ d j. ground (
        arith,
        h d j,
        nested_lookup-insert c d i j (record { until = now + total; total = total; group = g }) r,
      )
run-ends r f (clears c ∷ us) h =
    run-ends (delete c r) (λ d j. if d == c then 0 else f d j) us
      λ d j. ground (arith, h d j, nested_lookup-drop c d j r)

-- After any uses and logouts, the time left for an item is that to the end of its last cooldown, 0
-- once it is over, after a logout, and without one.
pub remaining_by_item-run :
    (us : List Use) (c i now : ℕ)
    → remaining_by_item (run [] us) c i now ≡ ends (λ d j. 0) us c i - now
unfolding remaining_by_item
remaining_by_item-run us c i now =
    ground (arith, run-ends [] (λ d j. 0) us (λ d j. unfold nested_lookup lookup in refl) c i)

-- An item's share of its group's cooldown.
abbrev pub share : ℕ → ℕ → ℕ × Stamp → ℕ
share group now (id, st) = if st.group == group then left st now else 0

best_of-bound :
    (group now best n : ℕ) (m : Dict ℕ Stamp)
    → (best_of group now best m ≤ n) ↔ ((best ≤ n) × All (λ e. share group now e ≤ n) m)
unfolding best_of
best_of-bound group now best n [] = ground arith
best_of-bound group now best n ((id, st) ∷ m) =
    let next =
      if st.group == group then (if ltb best (left st now) then left st now else best) else best in
    ground (arith, best_of-bound group now next n m)

-- The time left for a group is the largest of its items': a bound on it is a bound on each of
-- theirs, and the other way about. A group of 0 has none.
pub remaining_by_group-bound :
    (r : Cooldowns) (c group now n : ℕ)
    → (remaining_by_group r c group now ≤ n)
      ↔ (if group == 0 then Unit else All (λ e. share group now e ≤ n) (or_empty (lookup c r)))
unfolding remaining_by_group
remaining_by_group-bound r c group now n =
    ground (arith, best_of-bound group now 0 n (or_empty (lookup c r)))
