-- ===== src/World/State/Calls.antt =====
-- The registry through any calls, in whatever order they come: where everybody is.
use l2go.Prelude.{ℕ, refl, Bool, List, [], ◌∷◌, nat_eq}
use l2go.World.Grid.{Position}
use l2go.World.State.{
  Character, NpcInstance, World, new_world, add_player, remove_player, update_player_position,
  set_player_combat_state, update_player_run_walk_state, set_player_target, add_npc, remove_npc,
  cleanup_offline_players, or_unchanged,
}
use l2go.World.State.Indexed.{
  IsIndexed, new-IsIndexed, add_player-IsIndexed, remove_player-IsIndexed,
  update_player_position-IsIndexed, with_player-IsIndexed, set_player_target-IsIndexed,
  add_npc-IsIndexed, remove_npc-IsIndexed, sweep-IsIndexed,
}

pub data Call : Type 0 where
  joins : Character → ℕ → Call
  leaves : ℕ → Call
  moves : ℕ → Position → ℕ → ℕ → Call
  fights runs : ℕ → Bool → ℕ → Call
  targets : ℕ → ℕ → Call
  spawns : NpcInstance → Call
  despawns : ℕ → Call
  cleans_up : ℕ → ℕ → Call

unfoldable pub apply : World → Call → World
apply wr (joins char now) = add_player wr char now
apply wr (leaves i) = remove_player wr i
apply wr (moves i pos heading now) = or_unchanged wr (update_player_position wr i pos heading now)
apply wr (fights i in_combat now) = or_unchanged wr (set_player_combat_state wr i in_combat now)
apply wr (runs i running now) = or_unchanged wr (update_player_run_walk_state wr i running now)
apply wr (targets i target) = set_player_target wr i target
apply wr (spawns npc) = add_npc wr npc
apply wr (despawns i) = remove_npc wr i
apply wr (cleans_up now limit) = (cleanup_offline_players wr now limit).0

-- The registry after the calls, the last one first.
unfoldable pub after : List Call → World
after [] = new_world
after (c ∷ cs) = apply (after cs) c

apply-IsIndexed : (wr : World) (c : Call) → IsIndexed wr → IsIndexed (apply wr c)
unfolding apply set_player_combat_state update_player_run_walk_state cleanup_offline_players
apply-IsIndexed wr (joins char now) h = add_player-IsIndexed wr char now h
apply-IsIndexed wr (leaves i) h = remove_player-IsIndexed wr i h
apply-IsIndexed wr (moves i pos heading now) h =
    update_player_position-IsIndexed wr i pos heading now h
apply-IsIndexed wr (fights i in_combat now) h =
    with_player-IsIndexed wr i (λ s. record s { in_combat = in_combat; last_update = now })
      (λ s. refl) h
apply-IsIndexed wr (runs i running now) h =
    with_player-IsIndexed wr i (λ s. record s { is_running = running; last_update = now })
      (λ s. refl) h
apply-IsIndexed wr (targets i target) h = set_player_target-IsIndexed wr i target h
apply-IsIndexed wr (spawns npc) h = add_npc-IsIndexed wr npc h
apply-IsIndexed wr (despawns i) h = remove_npc-IsIndexed wr i h
apply-IsIndexed wr (cleans_up now limit) h = sweep-IsIndexed _ wr now limit 0 h

pub after-IsIndexed : (cs : List Call) → IsIndexed (after cs)
unfolding after
after-IsIndexed [] = new-IsIndexed
after-IsIndexed (c ∷ cs) = apply-IsIndexed (after cs) c (after-IsIndexed cs)
