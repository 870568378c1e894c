-- ===== src/World/State/Places.antt =====
-- Where everybody is, by the calls that were made.
use l2go.Prelude.{
  ℕ, ◌≡◌, refl, sym, ap, ◌∙◌, inl, inr, Bool, true, Option, none, some, List, [], ◌∷◌, ◌==◌,
  if◌then◌else◌, nat_eq, arith, Option-cases,
}
use l2go.Prelude.Dict.{lookup, lookup-insert, lookup-delete}
use l2go.World.Grid.{Position}
use l2go.World.State.{
  Character, PlayerWorldState, NpcInstance, World, new_world, joining, add_player, take_out,
  remove_player, move_player, update_player_position, with_player, set_player_combat_state,
  update_player_run_walk_state, set_player_target, add_npc, remove_npc, sweep_player, sweep,
  cleanup_offline_players, or_unchanged,
}
use l2go.World.State.Calls.{
  Call, joins, leaves, moves, fights, runs, targets, spawns, despawns, cleans_up, apply, after,
}

-- A move of a player who is not there does nothing.
abbrev pub moved_to : Position → Option Position → Option Position
moved_to pos none = none
moved_to pos (some old) = some pos

-- Where a player is after a call, from where it was.
pub where_after : ℕ → Call → Option Position → Option Position
where_after i (joins char now) p = if char.id == i then some char.position else p
where_after i (leaves j) p = if j == i then none else p
where_after i (moves j pos heading now) p = if j == i then moved_to pos p else p
where_after i (fights j in_combat now) p = p
where_after i (runs j running now) p = p
where_after i (targets j target) p = p
where_after i (spawns npc) p = p
where_after i (despawns j) p = p
where_after i (cleans_up now limit) p = p

-- Where a player is after the calls, the last one first.
pub whereabouts : ℕ → List Call → Option Position
whereabouts i [] = none
whereabouts i (c ∷ cs) = where_after i c (whereabouts i cs)

abbrev pub where_is : Option PlayerWorldState → Option Position
where_is none = none
where_is (some s) = some s.position

abbrev pub where_npc : Option NpcInstance → Option Position
where_npc none = none
where_npc (some n) = some n.position

abbrev pub online_or_absent : Option PlayerWorldState → Bool
online_or_absent none = true
online_or_absent (some s) = s.online

-- Every player in the registry is online: nothing ever says otherwise.
pub AllOnline : World → Type 0
AllOnline wr = (i : ℕ) → online_or_absent (lookup i wr.players) ≡ true

sweep-AllOnline :
    (ids : List ℕ) (wr : World) (now limit n : ℕ)
    → AllOnline wr
    → sweep ids wr now limit n ≡ (wr, n)
unfolding sweep sweep_player AllOnline
sweep-AllOnline [] wr now limit n h = refl
sweep-AllOnline (i ∷ ids) wr now limit n h = elim (Option-cases (lookup i wr.players)) [
  | inl missing ↦ rw (missing, sweep_player) (sweep-AllOnline ids wr now limit n h)
  | inr (s, there) ↦
      let online : s.online ≡ true = ground (arith, h i, there) in
      rw (there, sweep_player) (rw online (sweep-AllOnline ids wr now limit n h))
]

abbrev place : World → ℕ → Option Position
place wr i = where_is (lookup i wr.players)

-- A call keeps everybody online, and changes the places as it should.
record Steps (c : Call) (wr wr' : World) : Type 0 where
  online : AllOnline wr'
  placed : (i : ℕ) → place wr' i ≡ where_after i c (place wr i)

joins-Steps :
    (wr : World) (char : Character) (now : ℕ)
    → AllOnline wr
    → Steps (joins char now) wr (add_player wr char now)
unfolding add_player joining AllOnline where_after
joins-Steps wr char now h = record {
  online = λ i. ground (arith, h i, lookup-insert char.id i (joining char now) wr.players);
  placed = λ i. ground (arith, lookup-insert char.id i (joining char now) wr.players);
}

leaves-Steps : (wr : World) (j : ℕ) → AllOnline wr → Steps (leaves j) wr (remove_player wr j)
unfolding remove_player take_out AllOnline where_after
leaves-Steps wr j h = elim (Option-cases (lookup j wr.players)) [
  | inl missing ↦
      rw (missing, remove_player) (record { online = h; placed = λ i. ground (arith, missing) })
  | inr (s, there) ↦
      rw (there, remove_player)
        (record {
          online = λ i. ground (arith, h i, lookup-delete j i wr.players);
          placed = λ i. ground (arith, lookup-delete j i wr.players);
        })
]

moves-Steps :
    (wr : World) (j : ℕ) (pos : Position) (heading now : ℕ)
    → AllOnline wr
    → Steps
        (moves j pos heading now)
        wr
        (or_unchanged wr (update_player_position wr j pos heading now))
unfolding update_player_position move_player AllOnline where_after
moves-Steps wr j pos heading now h = elim (Option-cases (lookup j wr.players)) [
  | inl missing ↦
      rw (missing, update_player_position)
        (record { online = h; placed = λ i. ground (arith, missing) })
  | inr (s, there) ↦
      let moved = record s {
        position = pos;
        heading = heading;
        last_update = now;
        character = record s.character { position = pos };
      } in
      rw (there, update_player_position)
        (record {
          online = λ i. ground (arith, h i, h j, there, lookup-insert j i moved wr.players);
          placed = λ i. ground (arith, there, lookup-insert j i moved wr.players);
        })
]

-- A change of a player that leaves its position and its being online alone.
with_player-Steps :
    (c : Call) (wr : World) (j : ℕ) (change : PlayerWorldState → PlayerWorldState)
    → ((i : ℕ) (p : Option Position) → where_after i c p ≡ p)
    → ((s : PlayerWorldState) → ((change s).position ≡ s.position) × ((change s).online ≡ s.online))
    → AllOnline wr
    → Steps c wr (or_unchanged wr (with_player wr j change))
unfolding with_player AllOnline
with_player-Steps c wr j change idle still h = elim (Option-cases (lookup j wr.players)) [
  | inl missing ↦
      rw (missing, with_player)
        (record { online = h; placed = λ i. ground (arith, idle i (place wr i)) })
  | inr (s, there) ↦
      rw (there, with_player)
        (record {
          online = λ i.
              ground (arith, h i, h j, there, still s, lookup-insert j i (change s) wr.players);
          placed = λ i.
              ground (
                arith,
                there,
                still s,
                idle i (place wr i),
                lookup-insert j i (change s) wr.players,
              );
        })
]

npc_call-Steps :
    (c : Call) (wr wr' : World)
    → ((i : ℕ) (p : Option Position) → where_after i c p ≡ p)
    → wr'.players ≡ wr.players
    → AllOnline wr
    → Steps c wr wr'
unfolding AllOnline
npc_call-Steps c wr wr' idle same h = record {
  online = λ i. rw same (h i);
  placed = λ i. rw same (sym (idle i (place wr i)));
}

remove_npc-players : (wr : World) (i : ℕ) → (remove_npc wr i).players ≡ wr.players
unfolding remove_npc
remove_npc-players wr i = ground arith

apply-Steps : (wr : World) (c : Call) → AllOnline wr → Steps c wr (apply wr c)
unfolding apply where_after set_player_combat_state update_player_run_walk_state set_player_target
    add_npc cleanup_offline_players AllOnline
apply-Steps wr (joins char now) h = joins-Steps wr char now h
apply-Steps wr (leaves j) h = leaves-Steps wr j h
apply-Steps wr (moves j pos heading now) h = moves-Steps wr j pos heading now h
apply-Steps wr (fights j in_combat now) h =
    with_player-Steps _ wr j (λ s. record s { in_combat = in_combat; last_update = now })
      (λ i p. refl) (λ s. (refl, refl)) h
apply-Steps wr (runs j running now) h =
    with_player-Steps _ wr j (λ s. record s { is_running = running; last_update = now })
      (λ i p. refl) (λ s. (refl, refl)) h
apply-Steps wr (targets j target) h =
    let s =
      with_player-Steps (targets j target) wr j (λ s. record s { target_id = target }) (λ i p. refl)
        (λ s. (refl, refl)) h in
    record { online = s.online; placed = s.placed }
apply-Steps wr (spawns npc) h = npc_call-Steps _ wr _ (λ i p. refl) refl h
apply-Steps wr (despawns j) h = npc_call-Steps _ wr _ (λ i p. refl) (remove_npc-players wr j) h
apply-Steps wr (cleans_up now limit) h =
    npc_call-Steps _ wr _ (λ i p. refl)
      (ap (λ (r : World × ℕ). r.0.players) (sweep-AllOnline _ wr now limit 0 h)) h

after-AllOnline : (cs : List Call) → AllOnline (after cs)
unfolding after
after-AllOnline [] = unfold AllOnline new_world lookup in λ i. refl
after-AllOnline (c ∷ cs) = (apply-Steps (after cs) c (after-AllOnline cs)).online

pub after-whereabouts :
    (cs : List Call) (i : ℕ) → where_is (lookup i (after cs).players) ≡ whereabouts i cs
unfolding after whereabouts
after-whereabouts [] i = unfold new_world lookup in refl
after-whereabouts (c ∷ cs) i =
    (apply-Steps (after cs) c (after-AllOnline cs)).placed i
    ∙ ap (where_after i c) (after-whereabouts cs i)

-- Through any calls, whatever the clock and the limit say, the clean-up of the players who are
-- offline removes nobody and reports 0: no call marks a player as offline.
pub cleanup_offline_players-after :
    (cs : List Call) (now limit : ℕ) → cleanup_offline_players (after cs) now limit ≡ (after cs, 0)
unfolding cleanup_offline_players
cleanup_offline_players-after cs now limit =
    sweep-AllOnline _ (after cs) now limit 0 (after-AllOnline cs)
