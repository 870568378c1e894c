-- ===== src/World/Tests.antt =====
-- A city at the corner of four regions: a player walks across the corner, and a guard stands by.
use l2go.Prelude.{◌≡◌, List, [], ◌∷◌, occurrences}
use l2go.Prelude.Int.{pos, negsuc}
use l2go.World.Grid.{Position}
use l2go.World.State.{Character, NpcInstance, cleanup_offline_players}
use l2go.World.State.Calls.{Call, joins, moves, spawns, after}
use l2go.World.State.Places.{whereabouts, cleanup_offline_players-after}
use l2go.World.Queries.{get_players_in_range}
use l2go.World.Queries.Range.{reached, get_players_in_range-after}

abbrev at_corner : Position
at_corner = record { x = pos 995; y = negsuc 4; z = pos 0 }

abbrev across : Position
across = record { x = pos 1004; y = pos 3; z = pos 0 }

abbrev far_away : Position
far_away = record { x = pos 9000; y = negsuc 9000; z = pos 0 }

abbrev walker : Character
walker = record { id = 7; name = "Walker"; account_name = "walker"; position = at_corner }

abbrev other : Character
other = record { id = 8; name = "Other"; account_name = "other"; position = far_away }

abbrev guard : NpcInstance
guard = record { object_id = 100; name = "Guard"; position = at_corner }

abbrev walk : List Call
walk = moves 7 across 0 3 ∷ spawns guard ∷ joins other 2 ∷ joins walker 1 ∷ []

get_players_in_range-after_example :
    occurrences 7 (get_players_in_range (after walk) at_corner 20)
    ≡ reached at_corner 20 (whereabouts 7 walk)
get_players_in_range-after_example = get_players_in_range-after walk at_corner 20 7

cleanup_offline_players-after_example :
    cleanup_offline_players (after walk) 9000 600 ≡ (after walk, 0)
cleanup_offline_players-after_example = cleanup_offline_players-after walk 9000 600
