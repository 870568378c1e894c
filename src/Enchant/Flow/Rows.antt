-- ===== src/Enchant/Flow/Rows.antt =====
-- What an attempt does to the table, row by row.
use l2go.Prelude.{
  ℕ, ◌-◌, ◌≡◌, ◌≢◌, ◌⊎◌, Bool, true, false, Option, none, some, List, [], ◌∷◌, ◌==◌, if◌then◌else◌,
  leb, nat_eq, arith,
}
use l2go.Prelude.Dict.{lookup, delete, lookup-delete}
use l2go.Items.{Item}
use l2go.Items.Store.{Rows, Outcome, ok, update, update_row, delete_item, lookup-update_row}
use l2go.Enchant.{EnchantDecision, EnchantResultCode}
use l2go.Enchant.Rules.{is_error}
use l2go.Enchant.Flow.Attempt.{EnchantOutcome, consume_scroll, apply_target, carry_out}

pub spend : Item → Rows → Rows
spend scroll r =
    if leb (scroll.count - 1) 0
    then delete scroll.object_id r
    else update_row (record scroll { count = scroll.count - 1 }) r

pub settle : EnchantDecision → Item → Rows → Rows
settle d target r =
    if d.destroy_target
    then delete target.object_id r
    else update_row (record target { enchant_level = d.new_level }) r

-- A call may fail, so an attempt stops before the scroll is spent, between the two writes or at the
-- end.
pub carry_out-rows :
    (d : EnchantDecision) (scroll target : Item) (r : Rows) (fs : List Bool)
    → let (o, st') = carry_out d scroll target (record { rows = r; faults = fs }) in
      (st'.rows ≡ r) ⊎ ((st'.rows ≡ spend scroll r) ⊎ (st'.rows ≡ settle d target (spend scroll r)))
unfolding carry_out consume_scroll apply_target spend settle update delete_item
carry_out-rows d scroll target r [] = ground arith
carry_out-rows d scroll target r (true ∷ fs) = ground arith
carry_out-rows d scroll target r (false ∷ []) = ground arith
carry_out-rows d scroll target r (false ∷ f ∷ fs) = ground arith

-- A stack that loses its last item is deleted.
abbrev pub one_less : Item → Option Item
one_less scroll =
    if leb scroll.count 1 then none else some (record scroll { count = scroll.count - 1 })

pub lookup-spend :
    (scroll : Item) (j : ℕ) (r : Rows)
    → lookup scroll.object_id r ≡ some scroll
    → lookup j (spend scroll r) ≡ (if scroll.object_id == j then one_less scroll else lookup j r)
unfolding spend
lookup-spend scroll j r found = ground (
  arith,
  lookup-delete scroll.object_id j r,
  lookup-update_row (record scroll { count = scroll.count - 1 }) j r,
)

-- The row that a decision leaves of the target.
abbrev pub settled : EnchantDecision → Item → Option Item
settled d target =
    if d.destroy_target then none else some (record target { enchant_level = d.new_level })

pub lookup-settle :
    (d : EnchantDecision) (target : Item) (j : ℕ) (r : Rows)
    → lookup target.object_id r ≡ some target
    → lookup j (settle d target r)
      ≡ (if target.object_id == j then settled d target else lookup j r)
unfolding settle
lookup-settle d target j r found = ground (
  arith,
  lookup-delete target.object_id j r,
  lookup-update_row (record target { enchant_level = d.new_level }) j r,
)

-- The code in the answer, if there is one.
abbrev pub reported : Outcome (Option EnchantOutcome) → Option EnchantResultCode
reported (ok (some out)) = some out.code
reported _ = none

-- Without a failing call everything is written.
pub carry_out_complete :
    (d : EnchantDecision) (scroll target : Item) (r : Rows)
    → let (o, st) = carry_out d scroll target (record { rows = r; faults = [] }) in
      (reported o ≡ some d.code)
      × (st.rows ≡ (if is_error d.code then r else settle d target (spend scroll r)))
unfolding carry_out consume_scroll apply_target spend settle update delete_item
carry_out_complete d scroll target r = ground arith

-- The two writes together.
pub lookup-settle-spend :
    (d : EnchantDecision) (scroll target : Item) (id : ℕ) (r : Rows)
    → scroll.object_id ≢ target.object_id
    → lookup scroll.object_id r ≡ some scroll
    → lookup target.object_id r ≡ some target
    → lookup id (settle d target (spend scroll r)) ≡ (
        if target.object_id == id
        then settled d target
        else (if scroll.object_id == id then one_less scroll else lookup id r))
lookup-settle-spend d scroll target id r ne hs ht =
    let kept : lookup target.object_id (spend scroll r) ≡ some target =
      ground (arith, lookup-spend scroll target.object_id r hs) in
    ground (arith, lookup-settle d target id (spend scroll r) kept, lookup-spend scroll id r hs)
