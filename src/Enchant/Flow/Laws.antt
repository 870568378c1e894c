-- ===== src/Enchant/Flow/Laws.antt =====
-- The attempt as a whole: what a complete one does, what one that meets a failing call can do, and
-- that the window's answer agrees with it.
use l2go.Prelude.{
  ℕ, ◌+◌, ◌≡◌, ◌≢◌, refl, ◌∙◌, sym, ap, ◌⊎◌, true, false, not, ◌&&◌, Option, none, some, [], ◌∷◌,
  ◌==◌, if◌then◌else◌, nat_eq, arith,
}
use l2go.Prelude.Dict.{lookup, lookup-delete, lookup-insert}
use l2go.Prelude.Nested.{is_some}
use l2go.Items.{Item}
use l2go.Items.Store.{Rows, get_by_object_id, Keyed}
use l2go.Enchant.{
  Float64, EnchantResultCode, code_success, code_blessed_fail, code_fail_destroy, EnchantScrollInfo,
  EnchantTarget, classify_enchant_scroll, validate_enchant, decide_enchant, decide_failure,
}
use l2go.Enchant.Rules.{is_error}
use l2go.Enchant.Conditions.{ItemTemplate, Data, both_owned, attempt_conditions, target_info}
use l2go.Enchant.Flow.{
  Armed, ActiveEnchant, get_active, has_active, set_active, clear, use_scroll,
  choose_inventory_item,
}
use l2go.Enchant.Flow.Attempt.{attempt, attempt_on, carry_out, decide_and_do, enchant_item}
use l2go.Enchant.Flow.Rows.{settled, one_less, reported, lookup-settle-spend, carry_out_complete}

-- What the rules promise of the item, by the code reported.
abbrev pub resolved : EnchantResultCode → Item → Option Item
resolved code_success i = some (record i { enchant_level = i.enchant_level + 1 })
resolved code_blessed_fail i = some (record i { enchant_level = 0 })
resolved code_fail_destroy i = none
resolved _ i = some i

settled-resolved :
    {F : Type 0} (fl : Float64 F) (s : EnchantScrollInfo F) (t : EnchantTarget F) (roll : F)
    (i : Item)
    → t.level ≡ i.enchant_level
    → let d = decide_enchant fl s t roll in
      (is_error d.code ≡ not (validate_enchant s t))
      × (validate_enchant s t ≡ true → settled d i ≡ resolved d.code i)
unfolding decide_enchant decide_failure
settled-resolved fl s t roll i e = (ground arith, λ h. ground arith)

attempt_conditions-level :
    {F : Type 0} (d : Data F) (scroll target : Item) (s : EnchantScrollInfo F) (t : EnchantTarget F)
    → attempt_conditions d scroll target ≡ some (s, t)
    → t.level ≡ target.enchant_level
unfolding attempt_conditions target_info
attempt_conditions-level d scroll target s t h = ground arith

pub both_owned_lem :
    (c : ℕ) (scroll target : Item)
    → scroll.owner_id ≡ c
    → target.owner_id ≡ c
    → both_owned c (some scroll) (some target) ≡ some (scroll, target)
unfolding both_owned
both_owned_lem c scroll target hs ht = ground arith

enchant_item-carry_out :
    {F : Type 0} (fl : Float64 F) (d : Data F) (rng : F) (armed : Armed) (r : Rows)
    (char_id target_id : ℕ) (a : ActiveEnchant) (scroll target : Item) (s : EnchantScrollInfo F)
    (t : EnchantTarget F)
    → get_active armed char_id ≡ some a
    → target_id ≢ 0
    → lookup a.scroll_object_id r ≡ some scroll
    → lookup target_id r ≡ some target
    → scroll.owner_id ≡ char_id
    → target.owner_id ≡ char_id
    → attempt_conditions d scroll target ≡ some (s, t)
    → enchant_item fl d rng armed (record { rows = r; faults = [] }) char_id target_id ≡ (
        let (o, st) =
          carry_out
            (decide_enchant fl s t (fl.scale rng))
            scroll
            target
            (record { rows = r; faults = [] }) in
        (o, clear armed char_id, st))
unfolding enchant_item attempt attempt_on decide_and_do get_by_object_id
enchant_item-carry_out fl d rng armed r c target_id a scroll target s t ha ht hs hr os ot hc =
    let nonzero : (target_id == 0) ≡ false = ground arith in
    rw
      (
        ha,
        nonzero,
        hs,
        hr,
        both_owned_lem c scroll target os ot,
        hc,
        enchant_item,
        attempt,
        attempt_on,
        decide_and_do,
      )
      refl

-- With the scroll armed, both rows owned by the character and every lookup in the tables
-- answered, an attempt without a failing call changes no row if the scroll does not fit; if it
-- fits, it takes one scroll, leaves the item as its code promises, and changes no other row. The
-- code reported is that of the decision on the number drawn, and the character is no longer armed.
pub enchant_item-resolves :
    {F : Type 0} (fl : Float64 F) (d : Data F) (rng : F) (armed : Armed) (r : Rows)
    (char_id target_id : ℕ) (a : ActiveEnchant) (scroll target : Item) (s : EnchantScrollInfo F)
    (t : EnchantTarget F)
    → Keyed r
    → get_active armed char_id ≡ some a
    → target_id ≢ 0
    → a.scroll_object_id ≢ target_id
    → lookup a.scroll_object_id r ≡ some scroll
    → lookup target_id r ≡ some target
    → scroll.owner_id ≡ char_id
    → target.owner_id ≡ char_id
    → attempt_conditions d scroll target ≡ some (s, t)
    → let (o, armed', st) =
        enchant_item fl d rng armed (record { rows = r; faults = [] }) char_id target_id in
      let code = (decide_enchant fl s t (fl.scale rng)).code in
      (reported o ≡ some code)
      × ((id : ℕ)
          → lookup id st.rows ≡ (
              if not (validate_enchant s t)
              then lookup id r
              else (if target_id == id
                  then resolved code target
                  else (if a.scroll_object_id == id then one_less scroll else lookup id r))))
      × ((other : ℕ)
          → get_active armed' other ≡ (if char_id == other then none else get_active armed other))
unfolding get_active clear
enchant_item-resolves fl d rng armed r char_id target_id a scroll target s t keyed ha ht ne hs hr os
      ot hc =
    let dec = decide_enchant fl s t (fl.scale rng) in
    let sid : scroll.object_id ≡ a.scroll_object_id = keyed a.scroll_object_id scroll hs in
    let tid : target.object_id ≡ target_id = keyed target_id target hr in
    rw
      (enchant_item-carry_out fl d rng armed r char_id target_id a scroll target s t ha ht hs hr os
        ot hc)
      (
        (carry_out_complete dec scroll target r).0,
        λ id. ground (
          arith,
          (carry_out_complete dec scroll target r).1,
          settled-resolved fl s t (fl.scale rng) target
              (attempt_conditions-level d scroll target s t hc),
          lookup-settle-spend dec scroll target id r (λ e. ne (sym sid ∙ e ∙ tid))
              (ap (λ k. lookup k r) sid ∙ hs) (ap (λ k. lookup k r) tid ∙ hr),
        ),
        λ other. ground (arith, lookup-delete char_id other armed),
      )

-- Using an item arms the character exactly when the item is an enchant scroll and no scroll is
-- armed: then the prompt for that scroll is the one notice. A scroll that is armed stays the one,
-- and nobody else's changes.
pub use_scroll-get_active :
    (armed : Armed) (char_id : ℕ) (item : Item) (tmpl : ItemTemplate) (other : ℕ)
    → let (armed', notices) = use_scroll armed char_id item (some tmpl) in
      let arms =
        is_some (classify_enchant_scroll tmpl.etcitem_type) && not (has_active armed char_id) in
      let a : ActiveEnchant = record {
        scroll_object_id = item.object_id;
        scroll_item_id = tmpl.template_id;
      } in
      (get_active armed' other
        ≡ (if arms && (char_id == other) then some a else get_active armed other))
      × ((notices ≡ choose_inventory_item char_id tmpl.template_id ∷ []) ⊎ (arms ≡ false))
unfolding use_scroll set_active get_active has_active
use_scroll-get_active armed c item tmpl other = (
  ground (
    arith,
    lookup-insert c other
        (record { scroll_object_id = item.object_id; scroll_item_id = tmpl.template_id }) armed,
  ),
  ground arith,
)
