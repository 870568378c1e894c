-- ===== src/Buffs.antt =====
-- CharEffectList of internal/gameserver/models/buff.go: the buffs on a character, and how a new one
-- stacks with them. A level is a signed int, a time a number of nanoseconds, and the expiry 0 stands
-- for none. `M` is the type of stat modifiers.
pub mod Counts
pub mod Laws
mod Tests
use text.Mathlib.Text.{◌==◌ as str_eq}
use l2go.Prelude.{
  ℕ, zero, suc, Bool, true, false, not, ◌&&◌, Option, none, some, List, [], ◌∷◌, ◌++◌, ◌==◌,
  if◌then◌else◌, leb, length, get_elem?, String,
}
use l2go.Prelude.Int.{ℤ, ltb_ℤ}
use l2go.Prelude.Nested.{is_some}

pub record BuffInfo (M : Type 0) : Type 0 where
  pub skill_id : ℕ
  pub skill_level : ℕ
  pub abnormal_type : String
  pub abnormal_lvl : ℤ
  pub mods : List M
  pub expires_at : ℕ

-- The empty type and "NONE" do not stack.
abbrev pub stacks : String → Bool
stacks t = not (str_eq t "") && not (str_eq t "NONE")

abbrev pub one_on : Option ℕ → Option ℕ
one_on none = none
one_on (some i) = some (suc i)

module _ {M : Type 0} where
  abbrev pub is_skill : ℕ → BuffInfo M → Bool
  is_skill skill b = b.skill_id == skill

  abbrev pub is_type : String → BuffInfo M → Bool
  is_type t b = str_eq b.abnormal_type t

  -- The index of the first buff that passes a test; `none` is -1.
  pub index_of : (BuffInfo M → Bool) → List (BuffInfo M) → Option ℕ
  index_of f [] = none
  index_of f (b ∷ bs) = if f b then some 0 else one_on (index_of f bs)

  pub remove_at : ℕ → List (BuffInfo M) → List (BuffInfo M)
  remove_at i [] = []
  remove_at zero (b ∷ bs) = bs
  remove_at (suc i) (b ∷ bs) = b ∷ remove_at i bs

  pub has_skill : List (BuffInfo M) → ℕ → Bool
  has_skill bs skill = is_some (index_of (is_skill skill) bs)

  -- "Drop any existing instance of the same skill."
  pub drop_skill : ℕ → List (BuffInfo M) → List (BuffInfo M)
  drop_skill skill bs = elim (index_of (is_skill skill) bs) [ none ↦ bs | some i ↦ remove_at i bs ]

  -- Against the buff of the same type at an index.
  pub replace_at :
      BuffInfo M → List (BuffInfo M) → ℕ → Option (BuffInfo M) → Bool × List (BuffInfo M)
  replace_at b bs i none = (false, bs)
  replace_at b bs i (some old) =
      if ltb_ℤ b.abnormal_lvl old.abnormal_lvl
      then (false, bs)
      else (true, remove_at i bs ++ b ∷ [])

  pub stack : BuffInfo M → List (BuffInfo M) → Bool × List (BuffInfo M)
  stack b bs =
      if stacks b.abnormal_type
      then elim (index_of (is_type b.abnormal_type) bs) [
        | none ↦ (true, bs ++ b ∷ [])
        | some i ↦ replace_at b bs i (get_elem? bs i)
      ]
      else (true, bs ++ b ∷ [])

  pub add_buff : List (BuffInfo M) → BuffInfo M → Bool × List (BuffInfo M)
  add_buff bs b = stack b (drop_skill b.skill_id bs)

  pub remove_skill : List (BuffInfo M) → ℕ → Bool × List (BuffInfo M)
  remove_skill bs skill = elim (index_of (is_skill skill) bs) [
    | none ↦ (false, bs)
    | some i ↦ (true, remove_at i bs)
  ]

  -- `!b.ExpiresAt.IsZero() && !now.Before(b.ExpiresAt)`.
  abbrev pub is_over : ℕ → BuffInfo M → Bool
  is_over now b = not (b.expires_at == 0) && leb b.expires_at now

  -- The expired ones, and those kept.
  pub remove_expired : ℕ → List (BuffInfo M) → List (BuffInfo M) × List (BuffInfo M)
  remove_expired now [] = ([], [])
  remove_expired now (b ∷ bs) =
      let (expired, kept) = remove_expired now bs in
      if is_over now b then (b ∷ expired, kept) else (expired, b ∷ kept)

  pub mods_of : List (BuffInfo M) → List M
  mods_of [] = []
  mods_of (b ∷ bs) = b.mods ++ mods_of bs
