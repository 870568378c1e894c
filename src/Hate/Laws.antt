-- ===== src/Hate/Laws.antt =====
-- The top attacker, whatever the order of the map.
use l2go.Prelude.{
  ℕ, ◌+◌, ◌≤◌, ◌<◌, ◌≡◌, ◌⊎◌, refl, none, List, [], ◌∷◌, ◌==◌, if◌then◌else◌, nat_eq, arith,
}
use l2go.Prelude.Dict.{Dict, lookup, insert, lookup-insert}
use l2go.Hate.{amount_or_zero, add_hate, top_from, get_top_attacker}

-- What is counted for an attacker.
abbrev pub hate_of : ℕ → Dict ℕ ℕ → ℕ
hate_of k hl = amount_or_zero (lookup k hl)

-- The keys of a map are distinct.
AreKeys : Dict ℕ ℕ → Type 0
AreKeys [] = Unit
AreKeys ((k, v) ∷ hl) = (lookup k hl ≡ none) × AreKeys hl

insert-AreKeys : (k v : ℕ) (hl : Dict ℕ ℕ) → AreKeys hl → AreKeys (insert k v hl)
unfolding AreKeys insert
insert-AreKeys k v [] h = unfold lookup in (refl, tt)
insert-AreKeys k v ((j, w) ∷ hl) (fresh, h) =
    ground (arith, lookup-insert k j v hl, insert-AreKeys k v hl h)

top_from-best :
    (t h : ℕ) (hl : Dict ℕ ℕ) (k : ℕ)
    → AreKeys hl
    → let r = top_from t h hl in
      ((r ≡ t) × (hate_of k hl ≤ h)) ⊎ ((h < hate_of r hl) × (hate_of k hl ≤ hate_of r hl))
unfolding top_from AreKeys lookup
top_from-best t h [] k u = ground arith
top_from-best t h ((c, v) ∷ hl) k (fresh, u) =
    let fresh_hate : hate_of c hl ≡ 0 = rw fresh refl in
    ground (arith, fresh_hate, top_from-best t h hl k u, top_from-best c v hl k u)

-- The list after the hits, the last one first.
pub after_hits : List (ℕ × ℕ) → Dict ℕ ℕ
after_hits [] = []
after_hits ((c, amount) ∷ hits) = add_hate (after_hits hits) c amount

-- All that an attacker dealt.
pub dealt : ℕ → List (ℕ × ℕ) → ℕ
dealt k [] = 0
dealt k ((c, amount) ∷ hits) = if c == k then dealt k hits + amount else dealt k hits

hits-AreKeys : (hits : List (ℕ × ℕ)) → AreKeys (after_hits hits)
unfolding after_hits add_hate
hits-AreKeys [] = unfold AreKeys in tt
hits-AreKeys ((c, amount) ∷ hits) = insert-AreKeys c _ (after_hits hits) (hits-AreKeys hits)

hits-dealt : (k : ℕ) (hits : List (ℕ × ℕ)) → hate_of k (after_hits hits) ≡ dealt k hits
unfolding after_hits add_hate dealt
hits-dealt k [] = unfold lookup in refl
hits-dealt k ((c, amount) ∷ hits) = ground (
  arith,
  lookup-insert c k (hate_of c (after_hits hits) + amount) (after_hits hits),
  hits-dealt k hits,
  hits-dealt c hits,
)

-- After any hits, either nobody has dealt anything and the NPC has no top attacker, or the top
-- attacker has dealt something, and nobody has dealt more.
pub get_top_attacker-hits :
    (hits : List (ℕ × ℕ)) (k : ℕ)
    → let top = get_top_attacker (after_hits hits) in
      ((top ≡ 0) × (dealt k hits ≡ 0)) ⊎ ((0 < dealt top hits) × (dealt k hits ≤ dealt top hits))
unfolding get_top_attacker
get_top_attacker-hits hits k = ground (
  arith,
  top_from-best 0 0 (after_hits hits) k (hits-AreKeys hits),
  hits-dealt k hits,
  hits-dealt (top_from 0 0 (after_hits hits)) hits,
)
