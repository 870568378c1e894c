-- ===== src/World/Queries/Scan.antt =====
-- The scan of some regions finds each id at most once, and exactly those near that it comes by.
use l2go.Prelude.{
  ℕ, ◌≡◌, refl, Bool, true, false, ◌&&◌, List, [], ◌∷◌, if◌then◌else◌, ◌==◌, nat_eq, arith,
  occurrences, occurrences-append,
}
use l2go.Prelude.Dict.{Dict, lookup}
use l2go.Prelude.Nested.{or_empty, contains}
use l2go.World.Queries.{Scan, visit, visit_all, scan_regions}

-- Some region of the keys holds the id.
pub held : Dict ℕ (List ℕ) → List ℕ → ℕ → Bool
held regions [] id = false
held regions (key ∷ keys) id =
    if contains (or_empty (lookup key regions)) id then true else held regions keys id

module _ (near : ℕ → Bool) (id : ℕ) where
  -- What is true of an id at each point of a scan.
  IsScan : Scan → Type 0
  IsScan (seen, found) = occurrences id found ≡ (if contains seen id && near id then 1 else 0)

  visit-IsScan : (scan : Scan) (k : ℕ) → IsScan scan → IsScan (visit near scan k)
  unfolding visit IsScan contains
  visit-IsScan (seen, found) k h = ground (arith, occurrences-append id found (k ∷ []))

  visit_seen :
      (scan : Scan) (k : ℕ)
      → contains (visit near scan k).0 id ≡ (if k == id then true else contains scan.0 id)
  unfolding visit contains
  visit_seen (seen, found) k = ground arith

  visit_all-IsScan :
      (scan : Scan) (ids : List ℕ)
      → IsScan scan
      → IsScan (visit_all near scan ids)
        × (contains (visit_all near scan ids).0 id
            ≡ (if contains ids id then true else contains scan.0 id))
  unfolding visit_all contains
  visit_all-IsScan scan [] h = (h, refl)
  visit_all-IsScan scan (k ∷ ids) h =
      let (kept, seen) = visit_all-IsScan (visit near scan k) ids (visit-IsScan scan k h) in
      (kept, ground (arith, seen, visit_seen scan k))

  scan_regions-IsScan :
      (regions : Dict ℕ (List ℕ)) (scan : Scan) (keys : List ℕ)
      → IsScan scan
      → IsScan (scan_regions near regions scan keys)
        × (contains (scan_regions near regions scan keys).0 id
            ≡ (if held regions keys id then true else contains scan.0 id))
  unfolding scan_regions held
  scan_regions-IsScan regions scan [] h = (h, refl)
  scan_regions-IsScan regions scan (key ∷ keys) h =
      let ids = or_empty (lookup key regions) in
      let (kept, seen) = visit_all-IsScan scan ids h in
      let (kept', seen') = scan_regions-IsScan regions (visit_all near scan ids) keys kept in
      (kept', ground (arith, seen, seen'))

  -- If what is near is held by a scanned region, it is found once, and nothing else is.
  pub scan_regions_lem :
      (regions : Dict ℕ (List ℕ)) (keys : List ℕ)
      → (near id ≡ true → held regions keys id ≡ true)
      → occurrences id (scan_regions near regions ([], []) keys).1 ≡ (if near id then 1 else 0)
  unfolding contains
  scan_regions_lem regions keys complete =
      let start : IsScan ([], []) = unfold IsScan in refl in
      let (kept, seen) = scan_regions-IsScan regions ([], []) keys start in
      unfold IsScan in ground (arith, kept, seen, complete)

pub held-contains :
    (regions : Dict ℕ (List ℕ)) (keys : List ℕ) (key id : ℕ)
    → contains keys key ≡ true
    → contains (or_empty (lookup key regions)) id ≡ true
    → held regions keys id ≡ true
unfolding held contains
held-contains regions [] key id h k = h
held-contains regions (k' ∷ keys) key id h k = ground (arith, held-contains regions keys key id)
