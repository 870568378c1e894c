-- ===== src/Inventory/Effects.antt =====
-- Two things that an action on the bag can promise: that no slot is fuller after it, whether it
-- succeeds or fails; and that a slot is empty after it if it succeeds.
use l2go.Prelude.{
  ℕ, ◌≤◌, ◌≡◌, refl, ◌∙◌, Bool, true, false, not, Option, none, some, List, [], ◌∷◌, if◌then◌else◌,
  nat_eq, arith,
}
use l2go.Prelude.Int.{pos_part}
use l2go.Items.{Item, PaperdollSlot, is_equipped}
use l2go.Items.Store.{Rows, Outcome, ok, failed, get_equipped_item, unequip_slot}
use l2go.Inventory.{
  Bag, Action, carry_on, ◌>>=◌, return, fail, lift, tolerant, discharge, unequip_item,
  unequip_found, unequip_slot_if_occupied,
}
use l2go.Inventory.Worn.{worn_count, owner_of, worn_count-unequip_rows, owner_of-unequip_rows}

abbrev pub rows_of : Bag → Rows
rows_of b = b.store.rows

pub record Lessens {A : Type 0} (q : Action A) : Type 0 where
  pub fewer :
      (b : Bag) (c : ℕ) (s : PaperdollSlot)
      → worn_count c s (rows_of (q b).1) ≤ worn_count c s (rows_of b)
  pub owners : (b : Bag) (id : ℕ) → owner_of id (rows_of (q b).1) ≡ owner_of id (rows_of b)

pub return-Lessens : {A : Type 0} (a : A) → Lessens (return a)
return-Lessens a = record { fewer = λ b c s. omega arith; owners = λ b id. refl }

pub fail-Lessens : (A : Type 0) → Lessens (fail {A = A})
fail-Lessens A = record { fewer = λ b c s. omega arith; owners = λ b id. refl }

carry_on-fewer :
    {A B : Type 0} (f : A → Action B) (o : Outcome A) (b : Bag) (c : ℕ) (s : PaperdollSlot)
    → ((a : A) → Lessens (f a))
    → worn_count c s (rows_of (carry_on f o b).1) ≤ worn_count c s (rows_of b)
carry_on-fewer f (ok a) b c s h = (h a).fewer b c s
carry_on-fewer f failed b c s h = omega arith

carry_on-owners :
    {A B : Type 0} (f : A → Action B) (o : Outcome A) (b : Bag) (id : ℕ)
    → ((a : A) → Lessens (f a))
    → owner_of id (rows_of (carry_on f o b).1) ≡ owner_of id (rows_of b)
carry_on-owners f (ok a) b id h = (h a).owners b id
carry_on-owners f failed b id h = refl

pub bind-Lessens :
    {A B : Type 0} (q : Action A) (f : A → Action B)
    → Lessens q
    → ((a : A) → Lessens (f a))
    → Lessens (q >>= f)
bind-Lessens q f hq hf = record {
  fewer = λ b c s. omega (arith, hq.fewer b c s, carry_on-fewer f (q b).0 (q b).1 c s hf);
  owners = λ b id. carry_on-owners f (q b).0 (q b).1 id hf ∙ hq.owners b id;
}

pub if-Lessens :
    {A : Type 0} (t : Bool) (q q' : Action A)
    → Lessens q
    → Lessens q'
    → Lessens (if t then q else q')
if-Lessens true q q' h h' = h
if-Lessens false q q' h h' = h'

-- The queries.
get-same :
    (c : ℕ) (s : PaperdollSlot) (r : Rows) (fs : List Bool)
    → (get_equipped_item c s (record { rows = r; faults = fs })).1.rows ≡ r
unfolding get_equipped_item
get-same c s r [] = refl
get-same c s r (true ∷ fs) = refl
get-same c s r (false ∷ fs) = refl

pub get-Lessens : (c : ℕ) (s : PaperdollSlot) → Lessens (lift (get_equipped_item c s))
get-Lessens c s = record {
  fewer = λ b c' s'. rw (get-same c s b.store.rows b.store.faults) (omega arith);
  owners = λ b id. rw (get-same c s b.store.rows b.store.faults) refl;
}

pub tolerant-Lessens : (c : ℕ) (s : PaperdollSlot) → Lessens (tolerant (get_equipped_item c s))
tolerant-Lessens c s = record {
  fewer = λ b c' s'. rw (get-same c s b.store.rows b.store.faults) (omega arith);
  owners = λ b id. rw (get-same c s b.store.rows b.store.faults) refl;
}

unequip-fewer :
    (c : ℕ) (s : PaperdollSlot) (r : Rows) (fs : List Bool) (c' : ℕ) (s' : PaperdollSlot)
    → worn_count c' s' (unequip_slot c s (record { rows = r; faults = fs })).1.rows
      ≤ worn_count c' s' r
unfolding unequip_slot
unequip-fewer c s r [] c' s' = ground (arith, worn_count-unequip_rows c c' s s' r)
unequip-fewer c s r (true ∷ fs) c' s' = omega arith
unequip-fewer c s r (false ∷ fs) c' s' = ground (arith, worn_count-unequip_rows c c' s s' r)

unequip-owners :
    (c : ℕ) (s : PaperdollSlot) (r : Rows) (fs : List Bool) (id : ℕ)
    → owner_of id (unequip_slot c s (record { rows = r; faults = fs })).1.rows ≡ owner_of id r
unfolding unequip_slot
unequip-owners c s r [] id = owner_of-unequip_rows c s id r
unequip-owners c s r (true ∷ fs) id = refl
unequip-owners c s r (false ∷ fs) id = owner_of-unequip_rows c s id r

pub unequip_slot-Lessens : (c : ℕ) (s : PaperdollSlot) → Lessens (lift (unequip_slot c s))
unequip_slot-Lessens c s = record {
  fewer = λ b. unequip-fewer c s b.store.rows b.store.faults;
  owners = λ b. unequip-owners c s b.store.rows b.store.faults;
}

discharge-rows : (s : PaperdollSlot) (i : Item) (b : Bag) → rows_of (discharge s i b).1 ≡ rows_of b
unfolding discharge
discharge-rows s i b = ground arith

discharge-Lessens : (s : PaperdollSlot) (i : Item) → Lessens (discharge s i)
discharge-Lessens s i = record {
  fewer = λ b c' s'. rw (discharge-rows s i b) (omega arith);
  owners = λ b id. rw (discharge-rows s i b) refl;
}

pub unequip_item-Lessens : (c : ℕ) (i : Item) → Lessens (unequip_item c i)
unfolding unequip_item
unequip_item-Lessens c i =
    let s = pos_part i.loc_data in
    if-Lessens (not (is_equipped i)) fail (lift (unequip_slot c s) >>= λ _. discharge s i)
      (fail-Lessens (List Item))
      (bind-Lessens (lift (unequip_slot c s)) (λ _. discharge s i) (unequip_slot-Lessens c s)
        λ _. discharge-Lessens s i)

unequip_found-Lessens : (c : ℕ) (o : Option Item) → Lessens (unequip_found c o)
unfolding unequip_found
unequip_found-Lessens c none = return-Lessens []
unequip_found-Lessens c (some i) = unequip_item-Lessens c i

pub unequip_slot_if_occupied-Lessens :
    (c : ℕ) (s : PaperdollSlot) → Lessens (unequip_slot_if_occupied c s)
unfolding unequip_slot_if_occupied
unequip_slot_if_occupied-Lessens c s =
    bind-Lessens (lift (get_equipped_item c s)) (unequip_found c) (get-Lessens c s)
      (unequip_found-Lessens c)
