-- ===== src/Pvp/Tests.antt =====
-- A strike, a sweep within the flag's time, and a relog.
use l2go.Prelude.{◌≡◌, List, [], ◌∷◌, arith, nat_eq}
use l2go.Prelude.Int.{pos}
use l2go.Prelude.Dict.{lookup}
use l2go.Pvp.Laws.{
  Event, enters, leaves, strikes, sweeps, after, flagged_at, SweptBy, shown, is_pvp_flagged-after,
}

abbrev duel : List Event
duel = sweeps 90 ∷ strikes 7 20 ∷ enters 7 (pos 0) ∷ leaves 7 ∷ enters 7 (pos 0) ∷ []

swept : SweptBy 100 duel
unfolding SweptBy
swept = (omega arith, tt)

is_pvp_flagged-after_example : shown 100 (lookup 7 (after duel).players) ≡ flagged_at 100 7 duel
is_pvp_flagged-after_example = is_pvp_flagged-after 100 7 duel swept
