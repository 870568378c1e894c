-- ===== src/World/Grid.antt =====
-- The geometry of registry/world.go: regions are cells of 1000 by 1000, and a key packs the two
-- coordinates of a cell. Coordinates are far from where an int or its square wraps.
pub mod Root
pub mod Reach
pub mod Cover
use l2go.Prelude.{
  ℕ, zero, suc, ◌+◌, ◌-◌, ◌*◌, ◌/◌, ◌%◌, ◌^◌, List, [], ◌∷◌, ◌++◌, if◌then◌else◌, leb,
}
use l2go.Prelude.Int.{ℤ, pos, negsuc, pos_part, neg_part, sub_ℕ, ◌+ℤ◌, ◌-ℤ◌}
use l2go.World.Grid.Root.{isqrt}

pub record Position : Type 0 where
  pub x : ℤ
  pub y : ℤ
  pub z : ℤ

abbrev pub region_size : ℕ
region_size = 1000

-- `n / regionSize`, which Go rounds toward 0.
pub region_coord : ℤ → ℤ
region_coord (pos n) = pos (n / region_size)
region_coord (negsuc n) = sub_ℕ 0 (suc n / region_size)

-- The low 32 bits of an integer.
pub low32 : ℤ → ℕ
low32 (pos n) = n % 2 ^ 32
low32 (negsuc n) = 2 ^ 32 - 1 - n % 2 ^ 32

pub pack_region : ℤ → ℤ → ℕ
pack_region rx ry = low32 rx * 2 ^ 32 + low32 ry

pub region_key : Position → ℕ
region_key p = pack_region (region_coord p.x) (region_coord p.y)

-- `for ry := startY; ry <= endY; ry++`, by the number of rounds.
pub column : ℤ → ℤ → ℕ → List ℕ
column rx ry zero = []
column rx ry (suc rounds) = pack_region rx ry ∷ column rx (ry +ℤ pos 1) rounds

pub cells : ℤ → ℕ → ℤ → ℕ → List ℕ
cells rx zero start_y rounds_y = []
cells rx (suc rounds) start_y rounds_y =
    column rx start_y rounds_y ++ cells (rx +ℤ pos 1) rounds start_y rounds_y

-- `end - start + 1`, where a loop that starts beyond its end has no round.
abbrev pub rounds_of : ℤ → ℤ → ℕ
rounds_of start end = pos_part (end -ℤ start +ℤ pos 1)

pub nearby_regions : Position → ℕ → List ℕ
nearby_regions p radius =
    let start_x = region_coord (p.x -ℤ pos radius) in
    let end_x = region_coord (p.x +ℤ pos radius) in
    let start_y = region_coord (p.y -ℤ pos radius) in
    let end_y = region_coord (p.y +ℤ pos radius) in
    cells start_x (rounds_of start_x end_x) start_y (rounds_of start_y end_y)

-- `d * d` by the size of d.
abbrev pub square : ℤ → ℕ
square d = (pos_part d + neg_part d) * (pos_part d + neg_part d)

-- The square root of a float64 is rounded exactly enough below 2 ^ 52 that its integer part is that
-- of the root.
pub distance : Position → Position → ℕ
distance p q = isqrt (square (p.x -ℤ q.x) + square (p.y -ℤ q.y))
