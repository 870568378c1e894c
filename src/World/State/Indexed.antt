-- ===== src/World/State/Indexed.antt =====
-- The grid is complete: a region holds the id of every player and NPC in it, through every call.
use l2go.Prelude.{
  ℕ, ◌+◌, ◌-◌, ◌≤◌, ◌≡◌, refl, inl, inr, not, ◌&&◌, Option, none, some, List, [], ◌∷◌, ◌++◌, ◌==◌,
  if◌then◌else◌, ltb, nat_eq, arith, Option-cases, Bool-cases, occurrences, occurrences-append,
}
use l2go.Prelude.Dict.{Dict, lookup, insert, delete, lookup-insert, lookup-delete}
use l2go.Prelude.Nested.{or_empty}
use l2go.World.Grid.{Position, region_key}
use l2go.World.State.{
  Character, PlayerWorldState, NpcInstance, World, new_world, put_in_region, remove_first,
  remove_from_region, tidy, or_unchanged, joining, add_player, take_out, remove_player, move_region,
  move_player, update_player_position, with_player, set_player_target, add_npc, remove_npc,
  sweep_player, sweep,
}

abbrev pub in_region : Dict ℕ (List ℕ) → ℕ → ℕ → ℕ
in_region regions key id = occurrences id (or_empty (lookup key regions))

pub in_region-put :
    (regions : Dict ℕ (List ℕ)) (k k' i i' : ℕ)
    → in_region (put_in_region regions k i) k' i'
      ≡ in_region regions k' i' + (if (k == k') && (i == i') then 1 else 0)
unfolding put_in_region
in_region-put regions k k' i i' =
    let ids = or_empty (lookup k regions) in
    ground (arith, lookup-insert k k' (ids ++ i ∷ []) regions, occurrences-append i' ids (i ∷ []))

occurrences-remove_first :
    (i i' : ℕ) (ids : List ℕ)
    → occurrences i' (remove_first i ids) ≡ occurrences i' ids - (if i == i' then 1 else 0)
unfolding remove_first
occurrences-remove_first i i' [] = ground arith
occurrences-remove_first i i' (x ∷ ids) = ground (arith, occurrences-remove_first i i' ids)

in_region-tidy :
    (regions : Dict ℕ (List ℕ)) (k k' i' : ℕ) (ids : List ℕ)
    → in_region (tidy k ids regions) k' i'
      ≡ (if k == k' then occurrences i' ids else in_region regions k' i')
in_region-tidy regions k k' i' [] = ground (arith, lookup-delete k k' regions)
in_region-tidy regions k k' i' (x ∷ ids) = ground (arith, lookup-insert k k' (x ∷ ids) regions)

pub in_region-remove :
    (regions : Dict ℕ (List ℕ)) (k k' i i' : ℕ)
    → in_region (remove_from_region regions k i) k' i'
      ≡ in_region regions k' i' - (if (k == k') && (i == i') then 1 else 0)
unfolding remove_from_region
in_region-remove regions k k' i i' = elim (Option-cases (lookup k regions)) [
  | inl missing ↦ rw (missing, remove_from_region) (ground (arith, missing))
  | inr (ids, found) ↦
      rw (found, remove_from_region)
        (ground (
          arith,
          found,
          in_region-tidy regions k k' i' (remove_first i ids),
          occurrences-remove_first i i' ids,
        ))
]

-- 1 when the map has the id at a position of the region.
module _ {V : Type 0} (position : V → Position) where
  abbrev pub at_key : ℕ → Option V → ℕ
  at_key key none = 0
  at_key key (some v) = if region_key (position v) == key then 1 else 0

  abbrev pub placed : Dict ℕ V → ℕ → ℕ → ℕ
  placed m key id = at_key key (lookup id m)

  placed-insert :
      (m : Dict ℕ V) (i key id : ℕ) (v : V)
      → placed (insert i v m) key id ≡ (if i == id then at_key key (some v) else placed m key id)
  placed-insert m i key id v = ground (arith, lookup-insert i id v m)

  placed-delete :
      (m : Dict ℕ V) (i key id : ℕ)
      → placed (delete i m) key id ≡ (if i == id then 0 else placed m key id)
  placed-delete m i key id = ground (arith, lookup-delete i id m)

abbrev pub player_in : Dict ℕ PlayerWorldState → ℕ → ℕ → ℕ
player_in = placed (λ s. s.position)

abbrev pub npc_in : Dict ℕ NpcInstance → ℕ → ℕ → ℕ
npc_in = placed (λ n. n.position)

abbrev pub IsIndexed : World → Type 0
IsIndexed wr =
    (key id : ℕ) → player_in wr.players key id + npc_in wr.npcs key id ≤ in_region wr.regions key id

pub new-IsIndexed : IsIndexed new_world
unfolding new_world lookup
new-IsIndexed key id = omega arith

pub add_player-IsIndexed :
    (wr : World) (char : Character) (now : ℕ) → IsIndexed wr → IsIndexed (add_player wr char now)
unfolding add_player joining
add_player-IsIndexed wr char now h key id =
    let state = joining char now in
    ground (
      arith,
      h key id,
      placed-insert (λ s. s.position) wr.players char.id key id state,
      in_region-put wr.regions (region_key char.position) key char.id id,
    )

pub add_npc-IsIndexed : (wr : World) (npc : NpcInstance) → IsIndexed wr → IsIndexed (add_npc wr npc)
unfolding add_npc
add_npc-IsIndexed wr npc h key id = ground (
  arith,
  h key id,
  placed-insert (λ n. n.position) wr.npcs npc.object_id key id npc,
  in_region-put wr.regions (region_key npc.position) key npc.object_id id,
)

take_out-IsIndexed :
    (wr : World) (i : ℕ) (s : PlayerWorldState)
    → lookup i wr.players ≡ some s
    → IsIndexed wr
    → IsIndexed (take_out wr i s)
unfolding take_out
take_out-IsIndexed wr i s there h key id = ground (
  arith,
  h key id,
  placed-delete (λ s. s.position) wr.players i key id,
  in_region-remove wr.regions (region_key s.position) key i id,
)

pub remove_player-IsIndexed : (wr : World) (i : ℕ) → IsIndexed wr → IsIndexed (remove_player wr i)
unfolding remove_player
remove_player-IsIndexed wr i h = elim (Option-cases (lookup i wr.players)) [
  | inl missing ↦ rw (missing, remove_player) h
  | inr (s, there) ↦ rw (there, remove_player) (take_out-IsIndexed wr i s there h)
]

in_region-move :
    (regions : Dict ℕ (List ℕ)) (old new key i id : ℕ)
    → in_region (move_region regions old new i) key id ≡ (
        if old == new
        then in_region regions key id
        else in_region regions key id
          - (if (old == key) && (i == id) then 1 else 0)
          + (if (new == key) && (i == id) then 1 else 0))
unfolding move_region
in_region-move regions old new key i id = ground (
  arith,
  in_region-put (remove_from_region regions old i) new key i id,
  in_region-remove regions old key i id,
)

move_player-IsIndexed :
    (wr : World) (i : ℕ) (s : PlayerWorldState) (pos : Position) (heading now : ℕ)
    → lookup i wr.players ≡ some s
    → IsIndexed wr
    → IsIndexed (move_player wr i s pos heading now)
unfolding move_player
move_player-IsIndexed wr i s pos heading now there h key id =
    let moved = record s {
      position = pos;
      heading = heading;
      last_update = now;
      character = record s.character { position = pos };
    } in
    ground (
      arith,
      h key id,
      placed-insert (λ s. s.position) wr.players i key id moved,
      in_region-move wr.regions (region_key s.position) (region_key pos) key i id,
    )

pub update_player_position-IsIndexed :
    (wr : World) (i : ℕ) (pos : Position) (heading now : ℕ)
    → IsIndexed wr
    → IsIndexed (or_unchanged wr (update_player_position wr i pos heading now))
unfolding update_player_position
update_player_position-IsIndexed wr i pos heading now h =
    elim (Option-cases (lookup i wr.players)) [
      | inl missing ↦ rw (missing, update_player_position) h
      | inr (s, there) ↦
          rw (there, update_player_position) (move_player-IsIndexed wr i s pos heading now there h)
    ]

-- A change that leaves the position alone.
pub with_player-IsIndexed :
    (wr : World) (i : ℕ) (change : PlayerWorldState → PlayerWorldState)
    → ((s : PlayerWorldState) → (change s).position ≡ s.position)
    → IsIndexed wr
    → IsIndexed (or_unchanged wr (with_player wr i change))
unfolding with_player
with_player-IsIndexed wr i change still h = elim (Option-cases (lookup i wr.players)) [
  | inl missing ↦ rw (missing, with_player) h
  | inr (s, there) ↦
      rw (there, with_player)
        λ key id.
          ground (
            arith,
            h key id,
            still s,
            placed-insert (λ s. s.position) wr.players i key id (change s),
          )
]

pub set_player_target-IsIndexed :
    (wr : World) (i target : ℕ) → IsIndexed wr → IsIndexed (set_player_target wr i target)
unfolding set_player_target
set_player_target-IsIndexed wr i target h =
    with_player-IsIndexed wr i (λ s. record s { target_id = target }) (λ s. refl) h

pub remove_npc-IsIndexed : (wr : World) (i : ℕ) → IsIndexed wr → IsIndexed (remove_npc wr i)
unfolding remove_npc
remove_npc-IsIndexed wr i h = elim (Option-cases (lookup i wr.npcs)) [
  | inl missing ↦ rw (missing, remove_npc) h
  | inr (npc, there) ↦
      rw (there, remove_npc)
        λ key id. ground (
          arith,
          there,
          h key id,
          placed-delete (λ n. n.position) wr.npcs i key id,
          in_region-remove wr.regions (region_key npc.position) key i id,
        )
]

sweep_player-IsIndexed :
    (wr : World) (i now limit n : ℕ)
    → IsIndexed wr
    → IsIndexed (sweep_player wr i now limit n (lookup i wr.players)).0
unfolding sweep_player
sweep_player-IsIndexed wr i now limit n h = elim (Option-cases (lookup i wr.players)) [
  | inl missing ↦ rw (missing, sweep_player) h
  | inr (s, there) ↦
      rw (there, sweep_player)
        (elim (Bool-cases (not s.online && ltb limit (now - s.last_update))) [
          | inl stale ↦ rw stale (take_out-IsIndexed wr i s there h)
          | inr live ↦ rw live h
        ])
]

pub sweep-IsIndexed :
    (ids : List ℕ) (wr : World) (now limit n : ℕ)
    → IsIndexed wr
    → IsIndexed (sweep ids wr now limit n).0
unfolding sweep
sweep-IsIndexed [] wr now limit n h = h
sweep-IsIndexed (i ∷ ids) wr now limit n h =
    let (wr', n') = sweep_player wr i now limit n (lookup i wr.players) in
    sweep-IsIndexed ids wr' now limit n' (sweep_player-IsIndexed wr i now limit n h)
