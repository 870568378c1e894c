-- ===== src/World/State.antt =====
-- The registry of players, NPCs and objects, and the calls that change it.
pub mod Indexed
pub mod Calls
pub mod Places
use l2go.Prelude.{
  ℕ, ◌+◌, ◌-◌, ◌≡◌, Bool, true, false, not, ◌&&◌, Option, none, some, List, [], ◌∷◌, ◌++◌, ◌==◌,
  if◌then◌else◌, ltb, String, nat_eq,
}
use l2go.Prelude.Dict.{Dict, lookup, insert, delete}
use l2go.Prelude.Nested.{or_empty, is_empty, keys}
use l2go.Registry.Targets.{TargetIndex, new_target_index, set_target, drop_target}
use l2go.Registry.Reuse.{Cooldowns, clear_reuse}
use l2go.Registry.Shots.{AutoShots, clear_shots}
use l2go.World.Grid.{Position, region_key}

-- What AddPlayer reads of a character.
pub record Character : Type 0 where
  pub id : ℕ
  pub name : String
  pub account_name : String
  pub position : Position

-- `character` is the shared Character, whose position is kept in step.
pub record PlayerWorldState : Type 0 where
  pub character : Character
  pub account_name : String
  pub position : Position
  pub heading : ℕ
  pub online : Bool
  pub in_combat : Bool
  pub is_running : Bool
  pub last_update : ℕ
  pub target_id : ℕ

pub data WorldObjectType : Type 0 where
  object_type_player object_type_npc : WorldObjectType

pub record WorldObject : Type 0 where
  pub name : String
  pub type : WorldObjectType
  pub position : Position

pub record NpcInstance : Type 0 where
  pub object_id : ℕ
  pub name : String
  pub position : Position

-- The registry, with the two global registries that RemovePlayer clears.
pub record World : Type 0 where
  pub players : Dict ℕ PlayerWorldState
  pub objects : Dict ℕ WorldObject
  pub npcs : Dict ℕ NpcInstance
  pub regions : Dict ℕ (List ℕ)
  pub targets : TargetIndex
  pub reuse : Cooldowns
  pub auto_shots : AutoShots

pub new_world : World
new_world = record {
  players = [];
  objects = [];
  npcs = [];
  regions = [];
  targets = new_target_index;
  reuse = [];
  auto_shots = [];
}

pub put_in_region : Dict ℕ (List ℕ) → ℕ → ℕ → Dict ℕ (List ℕ)
put_in_region regions key id = insert key (or_empty (lookup key regions) ++ id ∷ []) regions

pub remove_first : ℕ → List ℕ → List ℕ
remove_first object_id [] = []
remove_first object_id (id ∷ ids) =
    let rest = remove_first object_id ids in if id == object_id then ids else id ∷ rest

abbrev pub tidy : ℕ → List ℕ → Dict ℕ (List ℕ) → Dict ℕ (List ℕ)
tidy key ids regions = if is_empty ids then delete key regions else insert key ids regions

pub remove_from_region : Dict ℕ (List ℕ) → ℕ → ℕ → Dict ℕ (List ℕ)
remove_from_region regions key object_id = elim (lookup key regions) [
  | none ↦ regions
  | some object_ids ↦ tidy key (remove_first object_id object_ids) regions
]

pub joining : Character → ℕ → PlayerWorldState
joining char now = record {
  character = char;
  account_name = char.account_name;
  position = char.position;
  heading = 0;
  online = true;
  in_combat = false;
  is_running = true;
  last_update = now;
  target_id = 0;
}

pub add_player : World → Character → ℕ → World
add_player wr char now =
    let obj : WorldObject = record {
      name = char.name;
      type = object_type_player;
      position = char.position;
    } in
    record wr {
      players = insert char.id (joining char now) wr.players;
      objects = insert char.id obj wr.objects;
      regions = put_in_region wr.regions (region_key char.position) char.id;
    }

-- What RemovePlayer and CleanupOfflinePlayers both do with a player who is there.
pub take_out : World → ℕ → PlayerWorldState → World
take_out wr char_id state = record wr {
  regions = remove_from_region wr.regions (region_key state.position) char_id;
  players = delete char_id wr.players;
  objects = delete char_id wr.objects;
  targets = drop_target (set_target wr.targets char_id 0) char_id;
}

pub remove_player : World → ℕ → World
remove_player wr char_id = elim (lookup char_id wr.players) [
  | none ↦ wr
  | some state ↦ record (take_out wr char_id state) {
    reuse = clear_reuse wr.reuse char_id;
    auto_shots = clear_shots wr.auto_shots char_id;
  }
]

pub move_object : ℕ → Position → Dict ℕ WorldObject → Dict ℕ WorldObject
move_object id new_pos objects = elim (lookup id objects) [
  | none ↦ objects
  | some obj ↦ insert id (record obj { position = new_pos }) objects
]

pub move_region : Dict ℕ (List ℕ) → ℕ → ℕ → ℕ → Dict ℕ (List ℕ)
move_region regions old_key new_key id =
    if not (old_key == new_key)
    then put_in_region (remove_from_region regions old_key id) new_key id
    else regions

pub move_player : World → ℕ → PlayerWorldState → Position → ℕ → ℕ → World
move_player wr char_id state new_pos heading now =
    let moved = record state {
      position = new_pos;
      heading = heading;
      last_update = now;
      character = record state.character { position = new_pos };
    } in
    record wr {
      players = insert char_id moved wr.players;
      objects = move_object char_id new_pos wr.objects;
      regions = move_region wr.regions (region_key state.position) (region_key new_pos) char_id;
    }

-- `none` is ErrPlayerNotFound.
pub update_player_position : World → ℕ → Position → ℕ → ℕ → Option World
update_player_position wr char_id new_pos heading now = elim (lookup char_id wr.players) [
  | none ↦ none
  | some state ↦ some (move_player wr char_id state new_pos heading now)
]

pub with_player : World → ℕ → (PlayerWorldState → PlayerWorldState) → Option World
with_player wr char_id change = elim (lookup char_id wr.players) [
  | none ↦ none
  | some state ↦ some (record wr { players = insert char_id (change state) wr.players })
]

pub set_player_combat_state : World → ℕ → Bool → ℕ → Option World
set_player_combat_state wr char_id in_combat now =
    with_player wr char_id (λ s. record s { in_combat = in_combat; last_update = now })

pub update_player_run_walk_state : World → ℕ → Bool → ℕ → Option World
update_player_run_walk_state wr char_id is_running now =
    with_player wr char_id (λ s. record s { is_running = is_running; last_update = now })

abbrev pub or_unchanged : World → Option World → World
or_unchanged wr none = wr
or_unchanged wr (some wr') = wr'

pub set_player_target : World → ℕ → ℕ → World
set_player_target wr char_id target_id =
    let wr' = or_unchanged wr (with_player wr char_id (λ s. record s { target_id = target_id })) in
    record wr' { targets = set_target wr'.targets char_id target_id }

pub add_npc : World → NpcInstance → World
add_npc wr npc =
    let obj : WorldObject = record {
      name = npc.name;
      type = object_type_npc;
      position = npc.position;
    } in
    record wr {
      npcs = insert npc.object_id npc wr.npcs;
      objects = insert npc.object_id obj wr.objects;
      regions = put_in_region wr.regions (region_key npc.position) npc.object_id;
    }

pub remove_npc : World → ℕ → World
remove_npc wr object_id = elim (lookup object_id wr.npcs) [
  | none ↦ wr
  | some npc ↦ record wr {
    regions = remove_from_region wr.regions (region_key npc.position) object_id;
    npcs = delete object_id wr.npcs;
    objects = delete object_id wr.objects;
    targets = drop_target wr.targets object_id;
  }
]

pub sweep_player : World → ℕ → ℕ → ℕ → ℕ → Option PlayerWorldState → World × ℕ
sweep_player wr char_id now max_offline_time removed none = (wr, removed)
sweep_player wr char_id now max_offline_time removed (some state) =
    if not state.online && ltb max_offline_time (now - state.last_update)
    then (take_out wr char_id state, removed + 1)
    else (wr, removed)

-- The loop over the players, in one order of iteration, with the number removed so far.
pub sweep : List ℕ → World → ℕ → ℕ → ℕ → World × ℕ
sweep [] wr now max_offline_time removed = (wr, removed)
sweep (char_id ∷ ids) wr now max_offline_time removed =
    let state = lookup char_id wr.players in
    let (wr', removed') = sweep_player wr char_id now max_offline_time removed state in
    sweep ids wr' now max_offline_time removed'

pub cleanup_offline_players : World → ℕ → ℕ → World × ℕ
cleanup_offline_players wr now max_offline_time = sweep (keys wr.players) wr now max_offline_time 0
