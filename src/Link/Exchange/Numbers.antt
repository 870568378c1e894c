-- ===== src/Link/Exchange/Numbers.antt =====
-- The bytes of a number.
use l2go.Prelude.{
  ℕ, zero, suc, ◌+◌, ◌-◌, ◌*◌, ◌/◌, ◌%◌, ◌^◌, ◌≤◌, ◌<◌, ◌≡◌, refl, sym, ap, ap₂, ◌∙◌, List, [], ◌∷◌,
  ◌++◌, ◌==◌, length, replicate, All, arith, length-append, inl, inr, Bool-cases,
}
use mathlib.Core.List.{append_assoc, append-nil}
use native.Mathlib.Nat.{pow-suc}
use l2go.Link.Exchange.{set_bytes, big_bytes, padded}

-- The big-endian bytes of a number, so many of them.
pub be_bytes : ℕ → ℕ → List ℕ
be_bytes zero m = []
be_bytes (suc size) m = be_bytes size (m / 256) ++ m % 256 ∷ []

pub length-be_bytes : (size m : ℕ) → length (be_bytes size m) ≡ size
unfolding be_bytes
length-be_bytes zero m = refl
length-be_bytes (suc size) m =
    omega (
      arith,
      length-append (be_bytes size (m / 256)) (m % 256 ∷ []),
      length-be_bytes size (m / 256),
    )

zeros_end : (n : ℕ) → ◌≡◌ {A = List ℕ} (replicate n 0 ++ 0 ∷ []) (0 ∷ replicate n 0)
zeros_end zero = refl
zeros_end (suc n) = ap (◌∷◌ 0) (zeros_end n)

pub zeros : (size : ℕ) → be_bytes size 0 ≡ replicate size 0
unfolding be_bytes
zeros zero = refl
zeros (suc size) = ap (λ bs. bs ++ 0 ∷ []) (zeros size) ∙ zeros_end size

padded-nil : (n : ℕ) → padded n [] ≡ replicate n 0
unfolding padded
padded-nil zero = refl
padded-nil (suc n) = let fill : List ℕ = replicate (suc n) 0 in ground (arith, append-nil fill)

padded-end : (n x : ℕ) (xs : List ℕ) → padded (suc n) (xs ++ x ∷ []) ≡ padded n xs ++ x ∷ []
unfolding padded
padded-end n x xs =
    let longer : length (xs ++ x ∷ []) ≡ suc (length xs) =
      omega (arith, length-append xs (x ∷ [])) in
    let fill : List ℕ = replicate (n - length xs) 0 in
    rw longer (ground (arith, append_assoc fill xs (x ∷ [])))

pub padded-big_bytes :
    (size m : ℕ) → m < 256 ^ size → padded size (big_bytes size m) ≡ be_bytes size m
unfolding be_bytes big_bytes padded
padded-big_bytes zero m h = refl
padded-big_bytes (suc size) m h =
    let last = m % 256 in
    let all =
      padded-end size last (big_bytes size (m / 256))
      ∙ ap (λ bs. bs ++ last ∷ [])
          (padded-big_bytes size (m / 256) (omega (arith, pow-suc 256 size))) in
    elim (Bool-cases (m == 0)) [
      | inl none_left ↦
          let is_zero : m ≡ 0 = ground arith in
          rw is_zero (padded-nil (suc size) ∙ sym (zeros (suc size)))
      | inr some_left ↦ rw some_left all
    ]

quotient : (acc b : ℕ) → b < 256 → (acc * 256 + b) / 256 ≡ acc
quotient acc b h = omega arith

remainder : (acc b : ℕ) → b < 256 → (acc * 256 + b) % 256 ≡ b
remainder acc b h = omega arith

pub be_bytes-set_bytes :
    (size acc : ℕ) (bs : List ℕ)
    → All (λ b. b < 256) bs
    → be_bytes (size + length bs) (set_bytes acc bs) ≡ be_bytes size acc ++ bs
unfolding set_bytes be_bytes
be_bytes-set_bytes size acc [] h =
    let counted : size + 0 ≡ size = omega arith in
    ap (λ n. be_bytes n acc) counted ∙ sym (append-nil (be_bytes size acc))
be_bytes-set_bytes size acc (b ∷ bs) h =
    let counted : size + suc (length bs) ≡ suc size + length bs = omega arith in
    ap (λ n. be_bytes n (set_bytes (acc * 256 + b) bs)) counted
    ∙ be_bytes-set_bytes (suc size) (acc * 256 + b) bs h.1
    ∙ ap₂ (λ q r. (be_bytes size q ++ r ∷ []) ++ bs) (quotient acc b h.0) (remainder acc b h.0)
    ∙ append_assoc (be_bytes size acc) (b ∷ []) bs

set_bytes-append :
    (acc : ℕ) (xs ys : List ℕ) → set_bytes acc (xs ++ ys) ≡ set_bytes (set_bytes acc xs) ys
unfolding set_bytes
set_bytes-append acc [] ys = refl
set_bytes-append acc (x ∷ xs) ys = set_bytes-append (acc * 256 + x) xs ys

pub set_bytes-be_bytes : (size m : ℕ) → m < 256 ^ size → set_bytes 0 (be_bytes size m) ≡ m
unfolding be_bytes set_bytes
set_bytes-be_bytes zero m h = omega arith
set_bytes-be_bytes (suc size) m h =
    set_bytes-append 0 (be_bytes size (m / 256)) (m % 256 ∷ [])
    ∙ omega (arith, set_bytes-be_bytes size (m / 256) (omega (arith, pow-suc 256 size)))

times : (a b p : ℕ) → a ≤ b → a * p ≤ b * p
times a b p h = grind arith

pub set_bytes_small :
    (acc : ℕ) (bs : List ℕ) → All (λ b. b < 256) bs → set_bytes acc bs < (acc + 1) * 256 ^ length bs
unfolding set_bytes
set_bytes_small acc [] h = omega arith
set_bytes_small acc (b ∷ bs) h =
    let p = 256 ^ length bs in
    let fewer : (acc * 256 + b + 1) * p ≤ (acc + 1) * 256 * p =
      times (acc * 256 + b + 1) ((acc + 1) * 256) p (omega (arith, h.0)) in
    let same : (acc + 1) * 256 ^ suc (length bs) ≡ (acc + 1) * 256 * p =
      ap (λ q. (acc + 1) * q) (pow-suc 256 (length bs)) ∙ omega arith in
    omega (arith, set_bytes_small (acc * 256 + b) bs h.1, fewer, same)
