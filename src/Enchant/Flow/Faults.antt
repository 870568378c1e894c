-- ===== src/Enchant/Flow/Faults.antt =====
-- An attempt in which any of the calls on the table may fail. There is no transaction: the writes
-- before the failing call stay.
use l2go.Prelude.{
  ℕ, ◌≡◌, ◌≢◌, refl, ◌∙◌, sym, ap, ◌⊎◌, inl, inr, Bool, true, false, Option, none, some, List, [],
  ◌∷◌, ◌==◌, if◌then◌else◌, nat_eq, arith, Option-cases, Bool-cases,
}
use l2go.Prelude.Dict.{lookup, lookup-delete}
use l2go.Items.{Item}
use l2go.Items.Store.{Rows, get_by_object_id, Keyed}
use l2go.Enchant.{Float64, EnchantDecision, decide_enchant}
use l2go.Enchant.Conditions.{Data, both_owned, attempt_conditions}
use l2go.Enchant.Flow.{Armed, ActiveEnchant, get_active, clear}
use l2go.Enchant.Flow.Attempt.{attempt, attempt_on, decide_and_do, enchant_item}
use l2go.Enchant.Flow.Rows.{
  spend, settle, one_less, lookup-spend, lookup-settle-spend, carry_out-rows,
}

abbrev Progress : Option (Item × Item) → Rows → Rows → Type 0
Progress pair r r' =
    (r' ≡ r)
    ⊎ ((scroll : Item) × (target : Item) × (d : EnchantDecision) × (pair ≡ some (scroll, target))
        × ((r' ≡ spend scroll r) ⊎ (r' ≡ settle d target (spend scroll r))))

attempt_on-Progress :
    {F : Type 0} (fl : Float64 F) (d : Data F) (rng : F) (pair : Option (Item × Item)) (r : Rows)
    (fs : List Bool)
    → Progress pair r (attempt_on fl d rng pair (record { rows = r; faults = fs })).1.rows
unfolding attempt_on decide_and_do
attempt_on-Progress fl d rng none r fs = inl refl
attempt_on-Progress fl d rng (some (scroll, target)) r fs =
    elim (Option-cases (attempt_conditions d scroll target)) [
      | inl missing ↦ rw (missing, decide_and_do) (inl refl)
      | inr ((s, t), found) ↦
          let dec = decide_enchant fl s t (fl.scale rng) in
          rw (found, decide_and_do)
            (elim (carry_out-rows dec scroll target r fs) [
              | inl same ↦ inl same
              | inr wrote ↦ inr (scroll, target, dec, refl, wrote)
            ])
    ]

attempt-Progress :
    {F : Type 0} (fl : Float64 F) (d : Data F) (rng : F) (c i j : ℕ) (r : Rows) (fs : List Bool)
    → Progress
        (both_owned c (lookup i r) (lookup j r))
        r
        (attempt fl d rng c i j (record { rows = r; faults = fs })).1.rows
unfolding attempt get_by_object_id
attempt-Progress fl d rng c i j r [] =
    attempt_on-Progress fl d rng (both_owned c (lookup i r) (lookup j r)) r []
attempt-Progress fl d rng c i j r (true ∷ fs) = inl refl
attempt-Progress fl d rng c i j r (false ∷ []) =
    attempt_on-Progress fl d rng (both_owned c (lookup i r) (lookup j r)) r []
attempt-Progress fl d rng c i j r (false ∷ true ∷ fs) = inl refl
attempt-Progress fl d rng c i j r (false ∷ false ∷ fs) =
    attempt_on-Progress fl d rng (both_owned c (lookup i r) (lookup j r)) r fs

both_owned-loaded :
    (c : ℕ) (x y : Option Item) (scroll target : Item)
    → both_owned c x y ≡ some (scroll, target)
    → (x ≡ some scroll) × (y ≡ some target)
unfolding both_owned
both_owned-loaded c none y scroll target h = ground arith
both_owned-loaded c (some s) none scroll target h = ground arith
both_owned-loaded c (some s) (some t) scroll target h = ground arith

-- Every row but the two is as before, and the item's row is as before unless the scroll's row has
-- lost a scroll.
abbrev pub Paid : ℕ → ℕ → Rows → Rows → Type 0
Paid scroll_id target_id r r' =
    ((id : ℕ) → (lookup id r' ≡ lookup id r) ⊎ ((id ≡ target_id) ⊎ (id ≡ scroll_id)))
    × ((lookup target_id r' ≡ lookup target_id r)
        ⊎ ((scroll : Item) × (lookup scroll_id r ≡ some scroll)
            × (lookup scroll_id r' ≡ one_less scroll)))

-- The rows other than the target's.
others :
    (d : EnchantDecision) (scroll target : Item) (r r' : Rows) (id : ℕ)
    → lookup scroll.object_id r ≡ some scroll
    → lookup target.object_id r ≡ some target
    → scroll.object_id ≢ target.object_id
    → (r' ≡ spend scroll r) ⊎ (r' ≡ settle d target (spend scroll r))
    → id ≢ target.object_id
    → lookup id r' ≡ (if scroll.object_id == id then one_less scroll else lookup id r)
others d scroll target r r' id hs ht ne (inl e) apart =
    ap (lookup id) e ∙ lookup-spend scroll id r hs
others d scroll target r r' id hs ht ne (inr e) apart =
    ap (lookup id) e ∙ ground (arith, lookup-settle-spend d scroll target id r ne hs ht)

Progress-Paid :
    (c i j : ℕ) (r r' : Rows)
    → Keyed r
    → i ≢ j
    → Progress (both_owned c (lookup i r) (lookup j r)) r r'
    → Paid i j r r'
Progress-Paid c i j r r' keyed ne (inl same) =
    ((λ id. inl (ap (lookup id) same)), inl (ap (lookup j) same))
Progress-Paid c i j r r' keyed ne (inr (scroll, target, d, loaded, wrote)) =
    let (hs, ht) = both_owned-loaded c (lookup i r) (lookup j r) scroll target loaded in
    let sid : scroll.object_id ≡ i = keyed i scroll hs in
    let tid : target.object_id ≡ j = keyed j target ht in
    let row = λ (id : ℕ) (apart : id ≢ j).
      others d scroll target r r' id (ap (λ k. lookup k r) sid ∙ hs) (ap (λ k. lookup k r) tid ∙ ht)
        (λ e. ne (sym sid ∙ e ∙ tid)) wrote (λ e. apart (e ∙ tid)) in
    ((λ id. ground (arith, row id)), inr (scroll, hs, ground (arith, row i ne)))

-- Whatever calls fail, and wherever the attempt stops, an armed character's attempt changes no row
-- but the scroll's and the item's, changes the item only if the scroll's stack has lost one, and
-- disarms that character and nobody else.
pub enchant_item-Paid :
    {F : Type 0} (fl : Float64 F) (d : Data F) (rng : F) (armed : Armed) (r : Rows) (fs : List Bool)
    (char_id target_id : ℕ) (a : ActiveEnchant)
    → Keyed r
    → get_active armed char_id ≡ some a
    → a.scroll_object_id ≢ target_id
    → let (o, armed', st) =
        enchant_item fl d rng armed (record { rows = r; faults = fs }) char_id target_id in
      Paid a.scroll_object_id target_id r st.rows
      × ((other : ℕ)
          → get_active armed' other ≡ (if char_id == other then none else get_active armed other))
unfolding enchant_item get_active clear
enchant_item-Paid fl d rng armed r fs c j a keyed ha ne = elim (Bool-cases (j == 0)) [
  | inl zero' ↦
      rw (ha, zero', enchant_item)
        (
          Progress-Paid c a.scroll_object_id j r r keyed ne (inl refl),
          λ other. ground (arith, lookup-delete c other armed),
        )
  | inr nonzero ↦
      rw (ha, nonzero, enchant_item)
        (
          Progress-Paid c a.scroll_object_id j r _ keyed ne
              (attempt-Progress fl d rng c a.scroll_object_id j r fs),
          λ other. ground (arith, lookup-delete c other armed),
        )
]
