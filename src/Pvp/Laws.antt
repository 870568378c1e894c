-- ===== src/Pvp/Laws.antt =====
-- A flag lasts for its time, whatever the sweep does.
use l2go.Prelude.{
  ℕ, ◌+◌, ◌≤◌, ◌≡◌, refl, ◌∙◌, Bool, false, ◌==◌, Option, none, some, List, [], ◌∷◌, if◌then◌else◌,
  ltb, nat_eq, arith, inl, inr, Option-cases,
}
use l2go.Prelude.Int.{ℤ}
use l2go.Prelude.Dict.{lookup, insert, delete, lookup-insert, lookup-delete}
use l2go.Prelude.Nested.{keys}
use l2go.Pvp.{
  Player, GameLoop, pvp_flag_duration, is_pvp_flagged, set_pvp_flag, untrack, expire_flag,
  expire_player, expire_all, expire_pvp_flags,
}

-- A player enters the world with a karma or leaves it, does something hostile, the game loop learns of
-- a disconnect, or sweeps; each at a time where it matters.
pub data Event : Type 0 where
  enters : ℕ → ℤ → Event
  leaves : ℕ → Event
  strikes : ℕ → ℕ → Event
  disconnects : ℕ → Event
  sweeps : ℕ → Event

pub apply : Event → GameLoop → GameLoop
apply (enters c karma) gl = record gl {
  players = insert c (record { pvp_flag_until = none; karma = karma }) gl.players;
}
apply (leaves c) gl = record gl { players = delete c gl.players }
apply (strikes c now) gl = (set_pvp_flag gl c now).0
apply (disconnects c) gl = untrack gl c
apply (sweeps now) gl = expire_pvp_flags gl now

-- The latest event first.
pub after : List Event → GameLoop
after [] = record { players = []; flagged_players = [] }
after (e ∷ es) = apply e (after es)

abbrev pub struck : Option Bool → Bool → Option Bool
struck none flagged = none
struck (some before) flagged = some flagged

-- By the events alone: whether a player is in the world, and flagged at a time.
pub flagged_at : ℕ → ℕ → List Event → Option Bool
flagged_at t c [] = none
flagged_at t c (enters d karma ∷ es) =
    let rest = flagged_at t c es in if d == c then some false else rest
flagged_at t c (leaves d ∷ es) = let rest = flagged_at t c es in if d == c then none else rest
flagged_at t c (strikes d now ∷ es) =
    let rest = flagged_at t c es in
    if d == c then struck rest (ltb t (now + pvp_flag_duration)) else rest
flagged_at t c (disconnects d ∷ es) = flagged_at t c es
flagged_at t c (sweeps now ∷ es) = flagged_at t c es

-- No sweep is later than the time.
unfoldable pub SweptBy : ℕ → List Event → Type 0
SweptBy t [] = Unit
SweptBy t (sweeps now ∷ es) = (now ≤ t) × SweptBy t es
SweptBy t (_ ∷ es) = SweptBy t es

abbrev pub shown : ℕ → Option Player → Option Bool
shown t none = none
shown t (some player) = some (is_pvp_flagged player t)

expire_flag-shown :
    (gl : GameLoop) (d now t c : ℕ) (player : Player) (end : Option ℕ)
    → now ≤ t
    → lookup d gl.players ≡ some player
    → player.pvp_flag_until ≡ end
    → shown t (lookup c (expire_flag gl d now player end).0.players) ≡ shown t (lookup c gl.players)
unfolding expire_flag is_pvp_flagged
expire_flag-shown gl d now t c player none early there held = refl
expire_flag-shown gl d now t c player (some end) early there held = ground (
  arith,
  there,
  held,
  early,
  lookup-insert d c (record player { pvp_flag_until = none }) gl.players,
)

expire_player-shown :
    (gl : GameLoop) (d now t c : ℕ)
    → now ≤ t
    → shown t (lookup c (expire_player gl d now).0.players) ≡ shown t (lookup c gl.players)
unfolding expire_player
expire_player-shown gl d now t c early = elim (Option-cases (lookup d gl.players)) [
  | inl missing ↦ ground (arith, missing)
  | inr (player, there) ↦
      rw (there, expire_player)
        (expire_flag-shown gl d now t c player player.pvp_flag_until early there refl)
]

expire_all-shown :
    (ids : List ℕ) (gl : GameLoop) (now t c : ℕ)
    → now ≤ t
    → shown t (lookup c (expire_all ids gl now).players) ≡ shown t (lookup c gl.players)
unfolding expire_all
expire_all-shown [] gl now t c early = refl
expire_all-shown (d ∷ ids) gl now t c early =
    expire_all-shown ids (expire_player gl d now).0 now t c early
    ∙ expire_player-shown gl d now t c early

set_pvp_flag-shown :
    (gl : GameLoop) (d now t c : ℕ)
    → shown t (lookup c (set_pvp_flag gl d now).0.players) ≡ (
        if d == c
        then struck (shown t (lookup c gl.players)) (ltb t (now + pvp_flag_duration))
        else shown t (lookup c gl.players))
unfolding set_pvp_flag is_pvp_flagged
set_pvp_flag-shown gl d now t c = elim (Option-cases (lookup d gl.players)) [
  | inl missing ↦ ground (arith, missing)
  | inr (player, there) ↦
      let flagged = record player { pvp_flag_until = some (now + pvp_flag_duration) } in
      ground (arith, there, lookup-insert d c flagged gl.players)
]

-- Whatever players do, leave and enter again, and whenever the sweep runs up to a time, whether a
-- player is in the world and flagged at that time is what the last hostile act since they entered says.
pub is_pvp_flagged-after :
    (t c : ℕ) (es : List Event)
    → SweptBy t es
    → shown t (lookup c (after es).players) ≡ flagged_at t c es
unfolding after apply flagged_at SweptBy expire_pvp_flags is_pvp_flagged lookup
is_pvp_flagged-after t c [] h = refl
is_pvp_flagged-after t c (enters d karma ∷ es) h = ground (
  arith,
  lookup-insert d c (record { pvp_flag_until = none; karma = karma }) (after es).players,
  is_pvp_flagged-after t c es h,
)
is_pvp_flagged-after t c (leaves d ∷ es) h =
    ground (arith, lookup-delete d c (after es).players, is_pvp_flagged-after t c es h)
is_pvp_flagged-after t c (strikes d now ∷ es) h =
    ground (arith, set_pvp_flag-shown (after es) d now t c, is_pvp_flagged-after t c es h)
is_pvp_flagged-after t c (disconnects d ∷ es) h = is_pvp_flagged-after t c es h
is_pvp_flagged-after t c (sweeps now ∷ es) h =
    expire_all-shown (keys (after es).flagged_players) (after es) now t c h.0
    ∙ is_pvp_flagged-after t c es h.1
