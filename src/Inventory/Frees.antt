-- ===== src/Inventory/Frees.antt =====
-- A slot that was cleared is empty.
use l2go.Prelude.{
  ℕ, ◌≤◌, ◌≡◌, inl, inr, Bool, true, false, List, [], ◌∷◌, nat_eq, arith, Option-cases,
}
use l2go.Prelude.Int.{pos_part}
use l2go.Items.{Item, PaperdollSlot, is_equipped}
use l2go.Items.Store.{Rows, Outcome, ok, failed, worn, find_worn, get_equipped_item, unequip_slot}
use l2go.Inventory.{
  Bag, Action, carry_on, ◌>>=◌, discharge, unequip_item, unequip_found, unequip_slot_if_occupied,
}
use l2go.Inventory.Worn.{worn_count, find_worn-count, find_worn-worn, worn_count-unequip_rows}
use l2go.Inventory.Effects.{Lessens, rows_of}

abbrev pub Freed : {A : Type 0} → ℕ → PaperdollSlot → Outcome A → Bag → Type 0
Freed c s (ok a) b = worn_count c s (rows_of b) ≡ 0
Freed c s failed b = Unit

abbrev pub Frees : {A : Type 0} → ℕ → PaperdollSlot → Action A → Type 0
Frees c s q = (b : Bag) → Freed c s (q b).0 (q b).1

-- A slot that is empty stays so under what makes no slot fuller.
pub Freed-mono :
    {A : Type 0} (c : ℕ) (s : PaperdollSlot) (o : Outcome A) (b b' : Bag)
    → worn_count c s (rows_of b) ≡ 0
    → worn_count c s (rows_of b') ≤ worn_count c s (rows_of b)
    → Freed c s o b'
Freed-mono c s (ok x) b b' e le = omega arith
Freed-mono c s failed b b' e le = tt

carry_on-Freed :
    {A B : Type 0} (f : A → Action B) (c : ℕ) (s : PaperdollSlot) (o : Outcome A) (b : Bag)
    → ((a : A) → Lessens (f a))
    → Freed c s o b
    → Freed c s (carry_on f o b).0 (carry_on f o b).1
carry_on-Freed f c s failed b h freed = tt
carry_on-Freed f c s (ok a) b h freed =
    Freed-mono c s (f a b).0 b (f a b).1 freed ((h a).fewer b c s)

carry_on-Freed_last :
    {A B : Type 0} (f : A → Action B) (c : ℕ) (s : PaperdollSlot) (o : Outcome A) (b : Bag)
    → ((a : A) → Frees c s (f a))
    → Freed c s (carry_on f o b).0 (carry_on f o b).1
carry_on-Freed_last f c s failed b h = tt
carry_on-Freed_last f c s (ok a) b h = h a b

-- A sequence empties what its first step empties, and what its last step does.
pub bind-Frees :
    {A B : Type 0} (q : Action A) (f : A → Action B) (c : ℕ) (s : PaperdollSlot)
    → Frees c s q
    → ((a : A) → Lessens (f a))
    → Frees c s (q >>= f)
bind-Frees q f c s hq hf = λ b. carry_on-Freed f c s (q b).0 (q b).1 hf (hq b)

pub bind-Frees_last :
    {A B : Type 0} (q : Action A) (f : A → Action B) (c : ℕ) (s : PaperdollSlot)
    → ((a : A) → Frees c s (f a))
    → Frees c s (q >>= f)
bind-Frees_last q f c s hf = λ b. carry_on-Freed_last f c s (q b).0 (q b).1 hf

pub worn-slot :
    (c : ℕ) (s : PaperdollSlot) (i : Item)
    → worn c s i ≡ true
    → (is_equipped i ≡ true) × (pos_part i.loc_data ≡ s)
worn-slot c s i h = ground arith

unequip_slot-Frees :
    (c : ℕ) (s : PaperdollSlot) (i : Item) (r : Rows) (fs : List Bool) (b : Bag)
    → let (o, st) = unequip_slot c s (record { rows = r; faults = fs }) in
      let (o', b') = carry_on (λ _. discharge s i) o (record b { store = st }) in Freed c s o' b'
unfolding unequip_slot discharge
unequip_slot-Frees c s i r [] b = ground (arith, worn_count-unequip_rows c c s s r)
unequip_slot-Frees c s i r (true ∷ fs) b = tt
unequip_slot-Frees c s i r (false ∷ fs) b = ground (arith, worn_count-unequip_rows c c s s r)

pub unequip_item-Frees :
    (c : ℕ) (s : PaperdollSlot) (i : Item) → worn c s i ≡ true → Frees c s (unequip_item c i)
unfolding unequip_item
unequip_item-Frees c s i h b =
    let (equipped, slot) = worn-slot c s i h in
    rw (equipped, slot) (unequip_slot-Frees c s i b.store.rows b.store.faults b)

-- Nothing to take off, or the item that stands there taken off.
unequip_found-Frees :
    (c : ℕ) (s : PaperdollSlot) (b : Bag)
    → let (o, b') = unequip_found c (find_worn c s (rows_of b)) b in Freed c s o b'
unfolding unequip_found
unequip_found-Frees c s b = elim (Option-cases (find_worn c s (rows_of b))) [
  | inl missing ↦ rw (missing, unequip_found) (find_worn-count c s (rows_of b) missing)
  | inr (i, found) ↦
      rw (found, unequip_found)
        (unequip_item-Frees c s i (find_worn-worn c s (rows_of b) i found) b)
]

occupied-Frees :
    (c : ℕ) (s : PaperdollSlot) (r : Rows) (fs : List Bool) (b : Bag)
    → let (o, st) = get_equipped_item c s (record { rows = r; faults = fs }) in
      let (o', b') = carry_on (unequip_found c) o (record b { store = st }) in Freed c s o' b'
unfolding get_equipped_item
occupied-Frees c s r [] b =
    unequip_found-Frees c s (record b { store = record { rows = r; faults = [] } })
occupied-Frees c s r (true ∷ fs) b = tt
occupied-Frees c s r (false ∷ fs) b =
    unequip_found-Frees c s (record b { store = record { rows = r; faults = fs } })

pub unequip_slot_if_occupied-Frees :
    (c : ℕ) (s : PaperdollSlot) → Frees c s (unequip_slot_if_occupied c s)
unfolding unequip_slot_if_occupied
unequip_slot_if_occupied-Frees c s b = occupied-Frees c s b.store.rows b.store.faults b
