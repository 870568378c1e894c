-- ===== src/Registry/Reuse/Tests.antt =====
-- Two potions of one group, a minute apart.
use l2go.Prelude.{◌-◌, ◌≡◌, refl, List, [], ◌∷◌, nat_eq}
use l2go.Prelude.Dict.{lookup}
use l2go.Registry.Reuse.{Cooldowns, remaining_by_item, remaining_by_group, best_of}
use l2go.Registry.Reuse.Laws.{Use, adds, run, ends, remaining_by_item-run}

abbrev uses : List Use
uses = adds 7 31 4 100 1000 ∷ adds 7 32 4 100 1060 ∷ []

abbrev cooldowns : Cooldowns
cooldowns =
    (
      7,
      (31, record { until = 1100; total = 100; group = 4 })
          ∷ (32, record { until = 1160; total = 100; group = 4 })
          ∷ [],
    )
    ∷ []

longest : remaining_by_group cooldowns 7 4 1090 ≡ 70
unfolding remaining_by_group best_of lookup
longest = refl

remaining_by_item-run_example :
    remaining_by_item (run [] uses) 7 31 1090 ≡ ends (λ d j. 0) uses 7 31 - 1090
remaining_by_item-run_example = remaining_by_item-run uses 7 31 1090
