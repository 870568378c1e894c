-- ===== src/World/Grid/Reach.antt =====
-- Distances without the square root.
use l2go.Prelude.{ℕ, ◌+◌, ◌*◌, ◌≤◌, ◌≡◌, inl, inr, Bool, ltb, leb, leb→le, arith, Bool-cases}
use l2go.Prelude.Int.{◌-ℤ◌}
use l2go.World.Grid.{Position, square, distance}
use l2go.World.Grid.Root.{isqrt, isqrt-IsRoot}

-- The whole part of the distance is at most the radius.
pub within : Position → Position → ℕ → Bool
within p q radius = ltb (square (p.x -ℤ q.x) + square (p.y -ℤ q.y)) ((radius + 1) * (radius + 1))

pub mul_mono : (a b : ℕ) → a ≤ b → a * a ≤ b * b
mul_mono a b h = grind arith

leb-isqrt : (n r : ℕ) → leb (isqrt n) r ≡ ltb n ((r + 1) * (r + 1))
leb-isqrt n r = elim (Bool-cases (leb (isqrt n) r)) [
  | inl le ↦
      let small = leb→le _ _ le in
      ground (arith, isqrt-IsRoot n, mul_mono (isqrt n + 1) (r + 1) (omega arith))
  | inr gt ↦
      let beyond : r + 1 ≤ isqrt n = ground arith in
      ground (arith, isqrt-IsRoot n, mul_mono (r + 1) (isqrt n) beyond)
]

pub distance-within : (p q : Position) (radius : ℕ) → leb (distance p q) radius ≡ within p q radius
unfolding distance within
distance-within p q radius = leb-isqrt _ radius
