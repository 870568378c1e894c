-- ===== src/World/Grid/Cover.antt =====
-- The cells that a query scans cover the disc around its point.
use l2go.Prelude.{
  ℕ, zero, suc, ◌+◌, ◌*◌, ◌≤◌, ◌<◌, ◌≡◌, ◌⊎◌, inl, inr, refl, true, List, [], ◌∷◌, ◌++◌,
  if◌then◌else◌, leb, arith, nat_eq, leb→le, Bool-cases,
}
use l2go.Prelude.Int.{ℤ, pos, pos_part, neg_part, ◌+ℤ◌, ◌-ℤ◌, ◌≤ℤ◌, int_laws, eq_of_parts}
use l2go.Prelude.Nested.{contains}
use l2go.World.Grid.{
  Position, region_coord, pack_region, region_key, column, cells, rounds_of, nearby_regions,
  distance,
}
use l2go.World.Grid.Root.{isqrt, isqrt-IsRoot}
use l2go.World.Grid.Reach.{mul_mono}

pub region_coord_mono : (a b : ℤ) → a ≤ℤ b → region_coord a ≤ℤ region_coord b
unfolding region_coord
region_coord_mono a b h = ground arith

contains-append :
    (xs ys : List ℕ) (k : ℕ)
    → contains (xs ++ ys) k ≡ (if contains xs k then true else contains ys k)
unfolding contains
contains-append [] ys k = refl
contains-append (x ∷ xs) ys k = ground (arith, contains-append xs ys k)

-- `i` is one of the `rounds` integers from `start`.
abbrev Within : ℤ → ℕ → ℤ → Type 0
Within start rounds i = (start ≤ℤ i) × (i +ℤ pos 1 ≤ℤ start +ℤ pos rounds)

next-Within :
    (start : ℤ) (n : ℕ) (i : ℤ) → Within start (suc n) i → (i ≡ start) ⊎ Within (start +ℤ pos 1) n i
next-Within start n i h =
    elim (Bool-cases (leb (pos_part i + neg_part start) (pos_part start + neg_part i))) [
      | inl le ↦ inl (eq_of_parts i start (omega (arith, leb→le _ _ le, h)))
      | inr gt ↦
          let after : pos_part start + neg_part i < pos_part i + neg_part start = ground arith in
          inr (omega int_laws)
    ]

contains-column :
    (rx start ry : ℤ) (n : ℕ)
    → Within start n ry
    → contains (column rx start n) (pack_region rx ry) ≡ true
unfolding column contains
contains-column rx start ry zero h = absurd (omega int_laws)
contains-column rx start ry (suc n) h = elim (next-Within start n ry h) [
  | inl here ↦ rw here (ground arith)
  | inr more ↦ ground (arith, contains-column rx (start +ℤ pos 1) ry n more)
]

contains-cells :
    (start_x : ℤ) (n : ℕ) (start_y : ℤ) (m : ℕ) (rx ry : ℤ)
    → Within start_x n rx
    → Within start_y m ry
    → contains (cells start_x n start_y m) (pack_region rx ry) ≡ true
unfolding cells
contains-cells start_x zero start_y m rx ry h k = absurd (omega int_laws)
contains-cells start_x (suc n) start_y m rx ry h k =
    let rest = cells (start_x +ℤ pos 1) n start_y m in
    let split = contains-append (column start_x start_y m) rest (pack_region rx ry) in
    elim (next-Within start_x n rx h) [
      | inl here ↦ rw here (
          ground (
            arith,
            contains-append (column start_x start_y m) rest (pack_region start_x ry),
            contains-column start_x start_y ry m k,
          ))
      | inr more ↦ ground (arith, split, contains-cells (start_x +ℤ pos 1) n start_y m rx ry more k)
    ]

rounds-Within : (start end i : ℤ) → start ≤ℤ i → i ≤ℤ end → Within start (rounds_of start end) i
rounds-Within start end i h k = omega int_laws

-- A square below the next one's is of no larger number.
below_root : (d r n : ℕ) → isqrt n ≤ r → d * d ≤ n → d ≤ r
below_root d r n h k = elim (Bool-cases (leb d r)) [
  | inl le ↦ leb→le _ _ le
  | inr gt ↦
      let beyond : r + 1 ≤ d = ground arith in
      absurd (
        omega (
          arith,
          isqrt-IsRoot n,
          mul_mono (r + 1) d beyond,
          mul_mono (isqrt n + 1) (r + 1) (omega arith),
        ))
]

Spans : ℤ → ℤ → ℕ → Type 0
Spans a b r = (a -ℤ pos r ≤ℤ b) × (b ≤ℤ a +ℤ pos r)

shift-Spans : (a b : ℤ) (r : ℕ) → pos_part (a -ℤ b) + neg_part (a -ℤ b) ≤ r → Spans a b r
unfolding Spans
shift-Spans a b r h = omega int_laws

-- The cell of a point within the radius is among those scanned.
pub contains-nearby_regions :
    (p q : Position) (radius : ℕ)
    → distance p q ≤ radius
    → contains (nearby_regions p radius) (region_key q) ≡ true
unfolding nearby_regions region_key distance Spans
contains-nearby_regions p q radius h =
    let dx = pos_part (p.x -ℤ q.x) + neg_part (p.x -ℤ q.x) in
    let dy = pos_part (p.y -ℤ q.y) + neg_part (p.y -ℤ q.y) in
    let (lo_x, hi_x) =
      shift-Spans p.x q.x radius (below_root dx radius (dx * dx + dy * dy) h (omega arith)) in
    let (lo_y, hi_y) =
      shift-Spans p.y q.y radius (below_root dy radius (dx * dx + dy * dy) h (omega arith)) in
    contains-cells _ _ _ _ (region_coord q.x) (region_coord q.y)
      (rounds-Within _ _ _ (region_coord_mono _ _ lo_x) (region_coord_mono _ _ hi_x))
      (rounds-Within _ _ _ (region_coord_mono _ _ lo_y) (region_coord_mono _ _ hi_y))
