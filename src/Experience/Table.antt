-- ===== src/Experience/Table.antt =====
-- The table ascends.
use l2go.Prelude.{
  ℕ, zero, suc, ◌≤◌, ◌<◌, ◌≡◌, refl, Bool, true, ◌&&◌, List, [], ◌∷◌, leb, get_or, length, arith,
}
use l2go.Experience.{exp_table, exp_at}

abbrev ascending_from : ℕ → List ℕ → Bool
ascending_from x [] = true
ascending_from x (y ∷ ys) = leb x y && ascending_from y ys

from-head :
    (x : ℕ) (ys : List ℕ) (j : ℕ) → ascending_from x ys ≡ true → j < length ys → x ≤ get_or ys j 0
from-head x [] j h lt = absurd (omega arith)
from-head x (y ∷ ys) zero h lt = ground arith
from-head x (y ∷ ys) (suc j) h lt =
    let rest : ascending_from y ys ≡ true = ground arith in
    ground (arith, from-head y ys j rest (omega arith))

from_mono :
    (x : ℕ) (ys : List ℕ) (i j : ℕ)
    → ascending_from x ys ≡ true
    → i ≤ j
    → j < length ys
    → get_or ys i 0 ≤ get_or ys j 0
from_mono x [] i j h le lt = absurd (omega arith)
from_mono x (y ∷ ys) zero zero h le lt = omega arith
from_mono x (y ∷ ys) zero (suc j) h le lt =
    let rest : ascending_from y ys ≡ true = ground arith in from-head y ys j rest (omega arith)
from_mono x (y ∷ ys) (suc i) zero h le lt = absurd (omega arith)
from_mono x (y ∷ ys) (suc i) (suc j) h le lt =
    let rest : ascending_from y ys ≡ true = ground arith in
    from_mono y ys i j rest (omega arith) (omega arith)

pub exp_at_mono : (i j : ℕ) → i ≤ j → j ≤ 87 → exp_at i ≤ exp_at j
unfolding exp_at
exp_at_mono i j le small = from_mono 0 exp_table i j refl le (omega arith)
