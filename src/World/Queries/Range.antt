-- ===== src/World/Queries/Range.antt =====
-- The range queries against a search of the whole registry.
use l2go.Prelude.{
  ℕ, ◌≤◌, ◌≡◌, ap, ◌∙◌, inl, inr, true, Option, none, some, List, [], ◌∷◌, if◌then◌else◌, nat_eq,
  arith, occurrences, Option-cases,
}
use l2go.Prelude.Dict.{Dict, lookup}
use l2go.Prelude.Nested.{contains}
use l2go.World.Grid.{Position, region_key, nearby_regions, distance}
use l2go.World.Grid.Reach.{within, distance-within}
use l2go.World.Grid.Cover.{contains-nearby_regions}
use l2go.World.State.{World}
use l2go.World.State.Indexed.{IsIndexed, in_region}
use l2go.World.State.Calls.{Call, after, after-IsIndexed}
use l2go.World.State.Places.{where_is, where_npc, whereabouts, after-whereabouts}
use l2go.World.Queries.{player_near, get_npc, npc_near, get_players_in_range, get_npcs_in_range}
use l2go.World.Queries.Scan.{held, held-contains, scan_regions_lem}

occurrences-contains : (id : ℕ) (xs : List ℕ) → 1 ≤ occurrences id xs → contains xs id ≡ true
unfolding contains
occurrences-contains id [] h = absurd (omega arith)
occurrences-contains id (x ∷ xs) h = ground (arith, occurrences-contains id xs)

-- 1 if there is a position and it is within the radius.
pub reached : Position → ℕ → Option Position → ℕ
reached p radius none = 0
reached p radius (some q) = if within p q radius then 1 else 0

-- Whatever is near and has its id in the region of its position is held by a scanned region.
held-near :
    (regions : Dict ℕ (List ℕ)) (p q : Position) (radius id : ℕ)
    → 1 ≤ in_region regions (region_key q) id
    → distance p q ≤ radius
    → held regions (nearby_regions p radius) id ≡ true
held-near regions p q radius id there near =
    held-contains regions (nearby_regions p radius) (region_key q) id
      (contains-nearby_regions p q radius near) (occurrences-contains id _ there)

player_near-held :
    (wr : World) (p : Position) (radius id : ℕ)
    → IsIndexed wr
    → player_near wr p radius id ≡ true
    → held wr.regions (nearby_regions p radius) id ≡ true
unfolding player_near
player_near-held wr p radius id h near = elim (Option-cases (lookup id wr.players)) [
  | inl missing ↦ ground (arith, missing)
  | inr (s, there) ↦
      held-near wr.regions p s.position radius id
        (ground (arith, there, h (region_key s.position) id)) (ground (arith, there))
]

npc_near-held :
    (wr : World) (p : Position) (radius id : ℕ)
    → IsIndexed wr
    → npc_near wr p radius id ≡ true
    → held wr.regions (nearby_regions p radius) id ≡ true
unfolding npc_near
npc_near-held wr p radius id h near = elim (Option-cases (lookup id wr.npcs)) [
  | inl missing ↦ ground (arith, missing)
  | inr (n, there) ↦
      held-near wr.regions p n.position radius id
        (ground (arith, there, h (region_key n.position) id)) (ground (arith, there))
]

player_near-reached :
    (wr : World) (p : Position) (radius id : ℕ)
    → (if player_near wr p radius id then 1 else 0)
      ≡ reached p radius (where_is (lookup id wr.players))
unfolding player_near reached
player_near-reached wr p radius id = elim (Option-cases (lookup id wr.players)) [
  | inl missing ↦ ground (arith, missing)
  | inr (s, there) ↦ ground (arith, there, distance-within p s.position radius)
]

-- After any calls, the players found around a point are, each once, exactly those whose last join or
-- move put them within the radius, by the squares of the distances, and who have not left since.
pub get_players_in_range-after :
    (cs : List Call) (p : Position) (radius id : ℕ)
    → occurrences id (get_players_in_range (after cs) p radius)
      ≡ reached p radius (whereabouts id cs)
unfolding get_players_in_range
get_players_in_range-after cs p radius id =
    let wr = after cs in
    scan_regions_lem (player_near wr p radius) id wr.regions (nearby_regions p radius)
      (player_near-held wr p radius id (after-IsIndexed cs))
    ∙ player_near-reached wr p radius id
    ∙ ap (reached p radius) (after-whereabouts cs id)

npc_near-reached :
    (wr : World) (p : Position) (radius id : ℕ)
    → (if npc_near wr p radius id then 1 else 0) ≡ reached p radius (where_npc (get_npc wr id))
unfolding npc_near reached get_npc
npc_near-reached wr p radius id = elim (Option-cases (lookup id wr.npcs)) [
  | inl missing ↦ ground (arith, missing)
  | inr (n, there) ↦ ground (arith, there, distance-within p n.position radius)
]

-- After any calls, the NPCs found around a point are, each once, exactly those in the registry whose
-- position is within the radius, by the squares of the distances.
pub get_npcs_in_range-after :
    (cs : List Call) (p : Position) (radius id : ℕ)
    → occurrences id (get_npcs_in_range (after cs) p radius)
      ≡ reached p radius (where_npc (get_npc (after cs) id))
unfolding get_npcs_in_range
get_npcs_in_range-after cs p radius id =
    let wr = after cs in
    scan_regions_lem (npc_near wr p radius) id wr.regions (nearby_regions p radius)
      (npc_near-held wr p radius id (after-IsIndexed cs))
    ∙ npc_near-reached wr p radius id
