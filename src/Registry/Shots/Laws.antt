-- ===== src/Registry/Shots/Laws.antt =====
-- Both registries refine a partial function of weapon and shot, or of character and item.
use l2go.Prelude.{
  ℕ, ◌≡◌, refl, ap, ◌∙◌, Bool, true, false, not, ◌&&◌, Option, none, some, List, [], ◌∷◌, arith,
  ◌==◌, if◌then◌else◌, nat_eq,
}
use l2go.Prelude.Dict.{lookup, delete}
use l2go.Prelude.Nested.{
  nested_lookup, nested_insert, nested_delete, nested_lookup-insert, nested_lookup-delete,
  nested_lookup-drop, or_empty, is_some, is_empty, contains, contains-keys,
}
use l2go.Registry.Shots.{
  ShotType, shot_eq, shot_beq, ChargedShots, is_charged, or_zero, charged_grade, charge,
  set_charged, clear_charged, AutoShots, enable, disable, is_active, has_any, list_shots,
  clear_shots,
}

pub data Charging : Type 0 where
  charges : ℕ → ShotType → ℕ → Charging
  sets_charged : ℕ → ShotType → Bool → Charging
  clears_weapon : ℕ → Charging

unfoldable pub run_charging : ChargedShots → List Charging → ChargedShots
run_charging r [] = r
run_charging r (charges w s g ∷ cs) = run_charging (charge r w s g) cs
run_charging r (sets_charged w s b ∷ cs) = run_charging (set_charged r w s b) cs
run_charging r (clears_weapon w ∷ cs) = run_charging (clear_charged r w) cs

-- What the weapon's shot holds after the calls: the grade of the last charge, unless it was spent
-- or cleared since.
pub held : (ℕ → ShotType → Option ℕ) → List Charging → ℕ → ShotType → Option ℕ
held f [] = f
held f (charges w s g ∷ cs) = held (λ v t. if v == w && shot_beq t s then some g else f v t) cs
held f (sets_charged w s b ∷ cs) =
    held (λ v t. if v == w && shot_beq t s then (if b then some 0 else none) else f v t) cs
held f (clears_weapon w ∷ cs) = held (λ v t. if v == w then none else f v t) cs

abbrev Holds : ChargedShots → (ℕ → ShotType → Option ℕ) → Type 0
Holds r f = (w : ℕ) (s : ShotType) → nested_lookup w s r ≡ f w s

run_charging-Holds :
    (r : ChargedShots) (f : ℕ → ShotType → Option ℕ) (cs : List Charging)
    → Holds r f
    → Holds (run_charging r cs) (held f cs)
unfolding run_charging held charge set_charged clear_charged
run_charging-Holds r f [] h = h
run_charging-Holds r f (charges w s g ∷ cs) h =
    run_charging-Holds (nested_insert w s g r)
      (λ v t. if v == w && shot_beq t s then some g else f v t) cs
      λ v t.
        ground
          (arith, h v t, nested_lookup-insert w v s t g r, shot_eq.beq_iff s t, shot_eq.beq_iff t s)
run_charging-Holds r f (sets_charged w s true ∷ cs) h =
    run_charging-Holds (nested_insert w s 0 r)
      (λ v t. if v == w && shot_beq t s then some 0 else f v t) cs
      λ v t.
        ground
          (arith, h v t, nested_lookup-insert w v s t 0 r, shot_eq.beq_iff s t, shot_eq.beq_iff t s)
run_charging-Holds r f (sets_charged w s false ∷ cs) h =
    run_charging-Holds (nested_delete w s r) (λ v t. if v == w && shot_beq t s then none else f v t)
      cs
      λ v t.
        ground
          (arith, h v t, nested_lookup-delete w v s t r, shot_eq.beq_iff s t, shot_eq.beq_iff t s)
run_charging-Holds r f (clears_weapon w ∷ cs) h =
    run_charging-Holds (delete w r) (λ v t. if v == w then none else f v t) cs
      λ v t. ground (arith, h v t, nested_lookup-drop w v t r)

-- After any calls on an empty registry a weapon is charged with a shot exactly when its last call
-- charged it and nothing spent or cleared it since, and the grade reported is that of the last
-- charge, 0 without one.
pub charged-run :
    (cs : List Charging) (w : ℕ) (s : ShotType)
    → (is_charged (run_charging [] cs) w s ≡ is_some (held (λ v t. none) cs w s))
      × (charged_grade (run_charging [] cs) w s ≡ or_zero (held (λ v t. none) cs w s))
unfolding is_charged charged_grade
charged-run cs w s = (ap is_some same, ap or_zero same)
  where
    same : nested_lookup w s (run_charging [] cs) ≡ held (λ v t. none) cs w s
    same = run_charging-Holds [] (λ v t. none) cs (λ v t. unfold nested_lookup lookup in refl) w s

pub data Toggle : Type 0 where
  enables disables : ℕ → ℕ → Toggle
  clears_char : ℕ → Toggle

unfoldable pub run_toggles : AutoShots → List Toggle → AutoShots
run_toggles r [] = r
run_toggles r (enables c i ∷ ts) = run_toggles (enable r c i) ts
run_toggles r (disables c i ∷ ts) = run_toggles (disable r c i) ts
run_toggles r (clears_char c ∷ ts) = run_toggles (clear_shots r c) ts

pub active : (ℕ → ℕ → Bool) → List Toggle → ℕ → ℕ → Bool
active f [] = f
active f (enables c i ∷ ts) = active (λ d j. if d == c && (j == i) then true else f d j) ts
active f (disables c i ∷ ts) = active (λ d j. if d == c && (j == i) then false else f d j) ts
active f (clears_char c ∷ ts) = active (λ d j. if d == c then false else f d j) ts

run_toggles-active :
    (r : AutoShots) (f : ℕ → ℕ → Bool) (ts : List Toggle)
    → ((c i : ℕ) → is_some (nested_lookup c i r) ≡ f c i)
    → (c i : ℕ) → is_some (nested_lookup c i (run_toggles r ts)) ≡ active f ts c i
unfolding run_toggles active enable disable clear_shots
run_toggles-active r f [] h = h
run_toggles-active r f (enables c i ∷ ts) h =
    run_toggles-active (nested_insert c i tt r) (λ d j. if d == c && (j == i) then true else f d j)
      ts λ d j. ground (arith, h d j, nested_lookup-insert c d i j tt r)
run_toggles-active r f (disables c i ∷ ts) h =
    run_toggles-active (nested_delete c i r) (λ d j. if d == c && (j == i) then false else f d j) ts
      λ d j. ground (arith, h d j, nested_lookup-delete c d i j r)
run_toggles-active r f (clears_char c ∷ ts) h =
    run_toggles-active (delete c r) (λ d j. if d == c then false else f d j) ts
      λ d j. ground (arith, h d j, nested_lookup-drop c d j r)

-- After any toggles from an empty registry, the items listed for a character, and those reported
-- active, are exactly those enabled and neither disabled nor cleared since; `has_any` says whether
-- the list has an entry.
pub list_shots-run :
    (ts : List Toggle) (c i : ℕ)
    → (contains (list_shots (run_toggles [] ts) c) i ≡ active (λ d j. false) ts c i)
      × (is_active (run_toggles [] ts) c i ≡ active (λ d j. false) ts c i)
      × (has_any (run_toggles [] ts) c ≡ not (is_empty (list_shots (run_toggles [] ts) c)))
unfolding list_shots is_active has_any
list_shots-run ts c i = (
  contains-keys (or_empty (lookup c (run_toggles [] ts))) i ∙ unfold nested_lookup in same,
  same,
  ground arith,
)
  where
    same : is_some (nested_lookup c i (run_toggles [] ts)) ≡ active (λ d j. false) ts c i
    same = run_toggles-active [] (λ d j. false) ts (λ d j. unfold nested_lookup lookup in refl) c i
