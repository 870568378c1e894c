-- ===== src/Hate/Tests.antt =====
-- Attacker 5 hits twice and overtakes attacker 8.
use l2go.Prelude.{ℕ, ◌≤◌, ◌<◌, ◌≡◌, ◌⊎◌, refl, List, [], ◌∷◌, nat_eq}
use l2go.Prelude.Dict.{lookup, insert}
use l2go.Hate.{add_hate, top_from, get_top_attacker}
use l2go.Hate.Laws.{after_hits, dealt, get_top_attacker-hits}

abbrev hits : List (ℕ × ℕ)
hits = (5, 30) ∷ (8, 40) ∷ (5, 20) ∷ []

overtakes : get_top_attacker (add_hate (add_hate (add_hate [] 5 20) 8 40) 5 30) ≡ 5
unfolding get_top_attacker top_from add_hate insert lookup
overtakes = refl

get_top_attacker-hits_example :
    let top = get_top_attacker (after_hits hits) in
    ((top ≡ 0) × (dealt 8 hits ≡ 0)) ⊎ ((0 < dealt top hits) × (dealt 8 hits ≤ dealt top hits))
get_top_attacker-hits_example = get_top_attacker-hits hits 8
