-- ===== src/Registry/Shots/Tests.antt =====
-- A weapon charged twice and spent once; a character with one item left on.
use l2go.Prelude.{◌≡◌, refl, false, not, none, List, [], ◌∷◌, nat_eq}
use l2go.Prelude.Dict.{lookup, insert, delete}
use l2go.Prelude.Nested.{contains, nested_insert, nested_delete, nested_lookup, is_some, is_empty}
use l2go.Registry.Shots.{
  shot_eq, soulshot, spiritshot, is_charged, or_zero, charged_grade, charge, set_charged, is_active,
  has_any, list_shots, enable, disable,
}
use l2go.Registry.Shots.Laws.{
  Charging, charges, sets_charged, run_charging, held, charged-run, Toggle, enables, disables,
  run_toggles, active, list_shots-run,
}

abbrev charging : List Charging
charging = charges 7 soulshot 3 ∷ charges 7 spiritshot 2 ∷ sets_charged 7 spiritshot false ∷ []

soulshot_left : charged_grade (run_charging [] charging) 7 soulshot ≡ 3
unfolding charged_grade run_charging charge set_charged nested_lookup nested_insert nested_delete
    lookup insert delete
soulshot_left = refl

charged-run_example :
    (is_charged (run_charging [] charging) 7 soulshot
      ≡ is_some (held (λ v t. none) charging 7 soulshot))
    × (charged_grade (run_charging [] charging) 7 soulshot
        ≡ or_zero (held (λ v t. none) charging 7 soulshot))
charged-run_example = charged-run charging 7 soulshot

abbrev toggles : List Toggle
toggles = enables 4 1835 ∷ enables 4 3947 ∷ disables 4 1835 ∷ []

one_left : list_shots (run_toggles [] toggles) 4 ≡ 3947 ∷ []
unfolding list_shots run_toggles enable disable nested_insert nested_delete lookup insert delete
one_left = refl

list_shots-run_example :
    (contains (list_shots (run_toggles [] toggles) 4) 3947 ≡ active (λ d j. false) toggles 4 3947)
    × (is_active (run_toggles [] toggles) 4 3947 ≡ active (λ d j. false) toggles 4 3947)
    × (has_any (run_toggles [] toggles) 4 ≡ not (is_empty (list_shots (run_toggles [] toggles) 4)))
list_shots-run_example = list_shots-run toggles 4 3947
