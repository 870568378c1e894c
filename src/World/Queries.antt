-- ===== src/World/Queries.antt =====
-- What the registry is asked: who is there, and who is near a point.
pub mod Scan
pub mod Range
use l2go.Prelude.{
  ℕ, ◌+◌, Bool, true, false, Option, none, some, List, [], ◌∷◌, ◌++◌, if◌then◌else◌, leb, String,
  Eq, nat_eq, string_eq, length,
}
use l2go.Prelude.Dict.{Dict, lookup}
use l2go.Prelude.Nested.{or_empty, contains}
use l2go.Registry.Targets.{targeters_of}
use l2go.World.Grid.{Position, nearby_regions, distance}
use l2go.World.State.{PlayerWorldState, NpcInstance, WorldObject, World}

pub get_player : World → ℕ → Option PlayerWorldState
get_player wr char_id = lookup char_id wr.players

pub get_npc : World → ℕ → Option NpcInstance
get_npc wr object_id = lookup object_id wr.npcs

pub by_account : String → Dict ℕ PlayerWorldState → Option PlayerWorldState
by_account account_name [] = none
by_account account_name ((id, state) ∷ states) =
    if string_eq.beq state.account_name account_name
    then some state
    else by_account account_name states

pub get_player_by_account : World → String → Option PlayerWorldState
get_player_by_account wr account_name = by_account account_name wr.players

pub get_players_targeting : World → ℕ → List ℕ
get_players_targeting wr object_id = targeters_of wr.targets object_id

pub get_npc_count : World → ℕ
get_npc_count wr = length wr.npcs

pub count_online : Dict ℕ PlayerWorldState → ℕ
count_online [] = 0
count_online ((id, state) ∷ states) =
    let rest = count_online states in if state.online then rest + 1 else rest

pub get_online_player_count : World → ℕ
get_online_player_count wr = count_online wr.players

-- The ids seen, and those of the objects found.
abbrev pub Scan : Type 0
Scan = List ℕ × List ℕ

-- One round of the inner loop: `near` is the lookup and the distance test.
pub visit : (ℕ → Bool) → Scan → ℕ → Scan
visit near (seen, found) id =
    if contains seen id
    then (seen, found)
    else (id ∷ seen, if near id then found ++ id ∷ [] else found)

pub visit_all : (ℕ → Bool) → Scan → List ℕ → Scan
visit_all near scan [] = scan
visit_all near scan (id ∷ ids) = visit_all near (visit near scan id) ids

pub scan_regions : (ℕ → Bool) → Dict ℕ (List ℕ) → Scan → List ℕ → Scan
scan_regions near regions scan [] = scan
scan_regions near regions scan (key ∷ keys) =
    scan_regions near regions (visit_all near scan (or_empty (lookup key regions))) keys

pub player_near : World → Position → ℕ → ℕ → Bool
player_near wr pos radius id = elim (lookup id wr.players) [
  | none ↦ false
  | some state ↦ leb (distance pos state.position) radius
]

pub npc_near : World → Position → ℕ → ℕ → Bool
npc_near wr pos radius id = elim (lookup id wr.npcs) [
  | none ↦ false
  | some npc ↦ leb (distance pos npc.position) radius
]

pub object_near : World → Position → ℕ → ℕ → Bool
object_near wr pos radius id = elim (lookup id wr.objects) [
  | none ↦ false
  | some obj ↦ leb (distance pos obj.position) radius
]

-- The ids of the states returned.
pub get_players_in_range : World → Position → ℕ → List ℕ
get_players_in_range wr pos radius =
    (scan_regions (player_near wr pos radius) wr.regions ([], []) (nearby_regions pos radius)).1

pub get_npcs_in_range : World → Position → ℕ → List ℕ
get_npcs_in_range wr pos radius =
    (scan_regions (npc_near wr pos radius) wr.regions ([], []) (nearby_regions pos radius)).1

pub get_objects_in_range : World → Position → ℕ → List ℕ
get_objects_in_range wr pos radius =
    (scan_regions (object_near wr pos radius) wr.regions ([], []) (nearby_regions pos radius)).1
