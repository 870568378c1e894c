-- ===== src/Buffs/Counts.antt =====
-- How many buffs pass a test, and what the list's operations do to that number.
use l2go.Prelude.{
  ℕ, zero, suc, ◌+◌, ◌≡◌, refl, Bool, true, false, none, some, List, [], ◌∷◌, ◌++◌, get_elem?, inl,
  inr, Bool-cases, arith,
}
use l2go.Buffs.{BuffInfo, index_of, remove_at, remove_expired}

abbrev pub bit : Bool → ℕ
bit true = 1
bit false = 0

module _ {M : Type 0} where
  unfoldable pub count : (BuffInfo M → Bool) → List (BuffInfo M) → ℕ
  count p [] = 0
  count p (b ∷ bs) = bit (p b) + count p bs

  pub count-append :
      (p : BuffInfo M → Bool) (bs : List (BuffInfo M)) (b : BuffInfo M)
      → count p (bs ++ b ∷ []) ≡ count p bs + bit (p b)
  unfolding count
  count-append p [] b = omega arith
  count-append p (x ∷ bs) b = omega (arith, count-append p bs b)

  pub index_of-none :
      (f : BuffInfo M → Bool) (bs : List (BuffInfo M)) → index_of f bs ≡ none → count f bs ≡ 0
  unfolding index_of count
  index_of-none f [] h = refl
  index_of-none f (b ∷ bs) h = ground (arith, index_of-none f bs)

  -- The buff at the index found passes the test, and removing it takes one away.
  pub index_of-some :
      (f p : BuffInfo M → Bool) (bs : List (BuffInfo M)) (i : ℕ)
      → index_of f bs ≡ some i
      → (b : BuffInfo M) × (get_elem? bs i ≡ some b)
        × (f b ≡ true)
        × (count p (remove_at i bs) + bit (p b) ≡ count p bs)
  unfolding index_of count remove_at
  index_of-some f p [] i h = ground arith
  index_of-some f p (b ∷ bs) zero h = elim (Bool-cases (f b)) [
    | inl hit ↦ (b, refl, hit, omega arith)
    | inr miss ↦ absurd (ground arith)
  ]
  index_of-some f p (b ∷ bs) (suc i) h = elim (Bool-cases (f b)) [
    | inl hit ↦ absurd (ground arith)
    | inr miss ↦
        let further : index_of f bs ≡ some i = ground arith in
        let (x, at, passes, sum) = index_of-some f p bs i further in (x, at, passes, omega arith)
  ]

  pub remove_expired-count :
      (p : BuffInfo M → Bool) (now : ℕ) (bs : List (BuffInfo M))
      → let (expired, kept) = remove_expired now bs in count p expired + count p kept ≡ count p bs
  unfolding remove_expired count
  remove_expired-count p now [] = refl
  remove_expired-count p now (b ∷ bs) = ground (arith, remove_expired-count p now bs)
