-- ===== src/Pvp.antt =====
-- PvP flags: internal/gameserver/gameloop/pvp.go, with IsPvPFlagged of registry/world.go. Times are
-- nanoseconds, and `none` is the zero time. Of a player, the state has the flag and the karma.
pub mod Laws
mod Tests
use l2go.Prelude.{
  ℕ, ◌+◌, ◌≡◌, Bool, true, false, not, Option, none, some, List, [], ◌∷◌, if◌then◌else◌, ltb,
  nat_eq,
}
use l2go.Prelude.Int.{ℤ, pos, negsuc}
use l2go.Prelude.Dict.{Dict, lookup, insert, delete}
use l2go.Prelude.Nested.{keys}

pub record Player : Type 0 where
  pub pvp_flag_until : Option ℕ
  pub karma : ℤ

-- The players in the world, and the set of those that the sweep looks at.
pub record GameLoop : Type 0 where
  pub players : Dict ℕ Player
  pub flagged_players : Dict ℕ (Unit {0})

-- 120 seconds.
abbrev pub pvp_flag_duration : ℕ
pvp_flag_duration = 120000000000

abbrev pub flag_holds : Option ℕ → ℕ → Bool
flag_holds none now = false
flag_holds (some end) now = ltb now end

pub is_pvp_flagged : Player → ℕ → Bool
is_pvp_flagged p now = flag_holds p.pvp_flag_until now

abbrev pub is_positive : ℤ → Bool
is_positive (pos n) = ltb 0 n
is_positive (negsuc n) = false

-- Whether the attack is allowed, and whether it flags the attacker.
pub can_attack_player : Option Player → Bool → ℕ → Bool × Bool
can_attack_player none ctrl now = (false, false)
can_attack_player (some target) ctrl now =
    if is_pvp_flagged target now
    then (true, false)
    else if is_positive target.karma
    then (true, false)
    else (ctrl, ctrl)

-- With whether the relation is broadcast.
pub set_pvp_flag : GameLoop → ℕ → ℕ → GameLoop × Bool
set_pvp_flag gl char_id now = elim (lookup char_id gl.players) [
  | none ↦ (gl, false)
  | some player ↦ (
    record {
      players =
          insert char_id (record player { pvp_flag_until = some (now + pvp_flag_duration) })
            gl.players;
      flagged_players = insert char_id tt gl.flagged_players;
    },
    not (is_pvp_flagged player now),
  )
]

abbrev pub untrack : GameLoop → ℕ → GameLoop
untrack gl char_id = record gl { flagged_players = delete char_id gl.flagged_players }

pub expire_flag : GameLoop → ℕ → ℕ → Player → Option ℕ → GameLoop × List ℕ
expire_flag gl char_id now player none = (untrack gl char_id, [])
expire_flag gl char_id now player (some end) =
    if not (ltb now end)
    then (
      record {
        players = insert char_id (record player { pvp_flag_until = none }) gl.players;
        flagged_players = delete char_id gl.flagged_players;
      },
      char_id ∷ [],
    )
    else (gl, [])

-- One round of the sweep, with the player whose relation is broadcast.
pub expire_player : GameLoop → ℕ → ℕ → GameLoop × List ℕ
expire_player gl char_id now = elim (lookup char_id gl.players) [
  | none ↦ (untrack gl char_id, [])
  | some player ↦ expire_flag gl char_id now player player.pvp_flag_until
]

pub expire_all : List ℕ → GameLoop → ℕ → GameLoop
expire_all [] gl now = gl
expire_all (char_id ∷ ids) gl now = expire_all ids (expire_player gl char_id now).0 now

pub expire_pvp_flags : GameLoop → ℕ → GameLoop
expire_pvp_flags gl now = expire_all (keys gl.flagged_players) gl now
