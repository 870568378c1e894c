-- ===== src/Login/Counts/Tests.antt =====
-- Two servers report an account; one goes down, and later the other report is old.
use l2go.Prelude.{◌≡◌, refl, none, List, [], ◌∷◌, string_eq, nat_eq}
use l2go.Prelude.Dict.{lookup, insert, delete}
use l2go.Prelude.Nested.{nested_insert}
use l2go.Login.Counts.{
  new_counts, get_character_count, fresh_count, is_old, set_character_count, clear_server, sweep,
  keep, get_character_counts, fresh_counts,
}
use l2go.Login.Counts.Laws.{
  Event, reports_count, clears_server, run, step, noted, get_character_count-run,
}

abbrev events : List Event
events = reports_count 10 "ann" 1 3 ∷ reports_count 11 "ann" 2 5 ∷ clears_server 1 ∷ []

five_left : get_character_counts (run (new_counts 100) events) 50 "ann" ≡ (2, 5) ∷ []
unfolding get_character_counts fresh_counts new_counts run step set_character_count clear_server
    sweep keep is_old nested_insert lookup insert delete
five_left = refl

get_character_count-run_example :
    get_character_count (run (new_counts 100) events) 50 "ann" 2
    ≡ fresh_count (noted 100 (λ b t. none) events "ann" 2) 100 50
get_character_count-run_example = get_character_count-run 100 events 50 "ann" 2
