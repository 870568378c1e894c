-- ===== src/Hate.antt =====
-- HateList of internal/gameserver/gameloop/hatelist.go: what each attacker of an NPC did to it. Hate
-- is damage, so it is at least 0. The order of the list is one order in which Go may range the map.
pub mod Laws
mod Tests
use l2go.Prelude.{
  ℕ, ◌+◌, Bool, true, false, Option, none, some, List, [], ◌∷◌, ltb, if◌then◌else◌, nat_eq,
}
use l2go.Prelude.Dict.{Dict, lookup, insert}

abbrev pub amount_or_zero : Option ℕ → ℕ
amount_or_zero none = 0
amount_or_zero (some hate) = hate

pub add_hate : Dict ℕ ℕ → ℕ → ℕ → Dict ℕ ℕ
add_hate hl char_id amount = insert char_id (amount_or_zero (lookup char_id hl) + amount) hl

-- The loop, with the best attacker so far.
pub top_from : ℕ → ℕ → Dict ℕ ℕ → ℕ
top_from top_id top_hate [] = top_id
top_from top_id top_hate ((char_id, hate) ∷ hl) =
    let rest = top_from top_id top_hate hl in
    let better = top_from char_id hate hl in if ltb top_hate hate then better else rest

pub get_top_attacker : Dict ℕ ℕ → ℕ
get_top_attacker hl = top_from 0 0 hl

pub get_all_attackers : Dict ℕ ℕ → List ℕ
get_all_attackers [] = []
get_all_attackers ((char_id, hate) ∷ hl) = char_id ∷ get_all_attackers hl

pub is_empty : Dict ℕ ℕ → Bool
is_empty [] = true
is_empty (e ∷ hl) = false
