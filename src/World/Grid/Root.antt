-- ===== src/World/Grid/Root.antt =====
-- The integer part of a square root.
use l2go.Prelude.{
  ℕ, zero, suc, ◌+◌, ◌*◌, ◌/◌, ◌≤◌, ◌<◌, ◌≡◌, ◌==◌, if◌then◌else◌, leb, inl, inr, arith, Bool-cases,
}

-- The root of n by that of n / 4.
digit : ℕ → ℕ → ℕ
digit n s = if leb ((2 * s + 1) * (2 * s + 1)) n then 2 * s + 1 else 2 * s

-- The number itself is fuel enough.
isqrt_from : ℕ → ℕ → ℕ
isqrt_from zero n = 0
isqrt_from (suc fuel) n = let rest = digit n (isqrt_from fuel (n / 4)) in if n == 0 then 0 else rest

pub isqrt : ℕ → ℕ
isqrt n = isqrt_from n n

abbrev pub IsRoot : ℕ → ℕ → Type 0
IsRoot n r = (r * r ≤ n) × (n < (r + 1) * (r + 1))

-- The squares of 2s and 2s + 2 by that of s.
double_square : (s : ℕ) → 2 * s * (2 * s) ≡ 4 * (s * s)
double_square s = grind arith

next_square : (s : ℕ) → (2 * s + 1 + 1) * (2 * s + 1 + 1) ≡ 4 * ((s + 1) * (s + 1))
next_square s = grind arith

digit-IsRoot : (n s : ℕ) → IsRoot (n / 4) s → IsRoot n (digit n s)
unfolding digit
digit-IsRoot n s (lo, hi) = ground (arith, double_square s, next_square s)

isqrt_from-IsRoot : (fuel n : ℕ) → n ≤ fuel → IsRoot n (isqrt_from fuel n)
unfolding isqrt_from
isqrt_from-IsRoot zero n h = omega arith
isqrt_from-IsRoot (suc fuel) n h = elim (Bool-cases (n == 0)) [
  | inl done ↦ rw done (ground arith)
  | inr more ↦
      rw more
        (digit-IsRoot n (isqrt_from fuel (n / 4)) (isqrt_from-IsRoot fuel (n / 4) (ground arith)))
]

pub isqrt-IsRoot : (n : ℕ) → IsRoot n (isqrt n)
unfolding isqrt
isqrt-IsRoot n = isqrt_from-IsRoot n n (omega arith)
