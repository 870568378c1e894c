-- ===== src/Crypt/Words.antt =====
-- Little-endian words inside a byte slice, as pkg/crypt/crypt.go reads and writes them.
-- `none` is the panic of an index out of range.
use l2go.Prelude.{
  All, ℕ, ◌+◌, ◌*◌, ◌/◌, ◌%◌, ◌^◌, ◌<◌, ◌≡◌, refl, Option, none, some, List, [], ◌∷◌, arith, ltb,
  if◌then◌else◌, length, get_elem?, get_or, set, suc, zero, length-set, ◌==◌, ◌⊎◌, ◌∙◌,
}
use mathlib.Core.Path.{ap₂}

-- The masks `& 0xff00` and so on keep a byte whole, and the four fields of `|` are disjoint.
abbrev pub le32 : ℕ → ℕ → ℕ → ℕ → ℕ
le32 b0 b1 b2 b3 = b0 + b1 * 2 ^ 8 + b2 * 2 ^ 16 + b3 * 2 ^ 24

abbrev pub byte_of : ℕ → ℕ → ℕ
byte_of k v = v / 2 ^ (8 * k) % 2 ^ 8

infixl 5 ◌>>=◌
abbrev pub ◌>>=◌ {ℓ κ} : {A : Type ℓ} {B : Type κ} → Option A → (A → Option B) → Option B
none >>= f = none
some a >>= f = f a

pub >>=-assoc {ℓ κ μ} :
    {A : Type ℓ} {B : Type κ} {C : Type μ} (m : Option A) (f : A → Option B) (g : B → Option C)
    → ((m >>= f) >>= g) ≡ (m >>= λ a. f a >>= g)
>>=-assoc none f g = refl
>>=-assoc (some a) f g = refl

pub >>=-cong {ℓ κ} :
    {A : Type ℓ} {B : Type κ} (m : Option A) (f g : A → Option B)
    → ((a : A) → f a ≡ g a)
    → (m >>= f) ≡ (m >>= g)
>>=-cong none f g h = refl
>>=-cong (some a) f g h = h a

unfoldable pub read_word : List ℕ → ℕ → Option ℕ
read_word raw i = do
  b0 ← get_elem? raw i
  b1 ← get_elem? raw (i + 1)
  b2 ← get_elem? raw (i + 2)
  b3 ← get_elem? raw (i + 3)
  some (le32 b0 b1 b2 b3)

abbrev pub put_word : List ℕ → ℕ → ℕ → List ℕ
put_word raw i v =
    set (set (set (set raw i (byte_of 0 v)) (i + 1) (byte_of 1 v)) (i + 2) (byte_of 2 v)) (i + 3)
      (byte_of 3 v)

unfoldable pub write_word : List ℕ → ℕ → ℕ → Option (List ℕ)
write_word raw i v = if ltb (i + 3) (length raw) then some (put_word raw i v) else none

abbrev pub IsBytes : List ℕ → Type 0
IsBytes raw = (j : ℕ) → get_or raw j 0 < 256

pub All-IsBytes : (raw : List ℕ) → All (λ b. b < 256) raw → IsBytes raw
All-IsBytes [] h j = omega arith
All-IsBytes (b ∷ raw) h zero = h.0
All-IsBytes (b ∷ raw) h (suc j) = All-IsBytes raw h.1 j

-- The word at an index, with 0 for what is out of range.
unfoldable pub word_at : List ℕ → ℕ → ℕ
word_at raw i =
    le32 (get_or raw i 0) (get_or raw (i + 1) 0) (get_or raw (i + 2) 0) (get_or raw (i + 3) 0)

module _ {ℓ} {A : Type ℓ} where
  pub get_elem?-eq-get_or :
      (xs : List A) (i : ℕ) (d : A) → i < length xs → get_elem? xs i ≡ some (get_or xs i d)
  get_elem?-eq-get_or [] i d h = absurd (omega arith)
  get_elem?-eq-get_or (x ∷ xs) zero d h = refl
  get_elem?-eq-get_or (x ∷ xs) (suc i) d h = get_elem?-eq-get_or xs i d (omega arith)

  pub get_or-set :
      (xs : List A) (i j : ℕ) (v d : A)
      → i < length xs
      → get_or (set xs i v) j d ≡ (if i == j then v else get_or xs j d)
  get_or-set [] i j v d h = absurd (omega arith)
  get_or-set (x ∷ xs) zero zero v d h = ground arith
  get_or-set (x ∷ xs) zero (suc j) v d h = ground arith
  get_or-set (x ∷ xs) (suc i) zero v d h = ground arith
  get_or-set (x ∷ xs) (suc i) (suc j) v d h = ground (arith, get_or-set xs i j v d (omega arith))

  -- Two lists of one length that agree at every index are equal.
  pub get_or_ext :
      (d : A) (xs ys : List A)
      → length xs ≡ length ys
      → ((i : ℕ) → get_or xs i d ≡ get_or ys i d)
      → xs ≡ ys
  get_or_ext d [] [] e h = refl
  get_or_ext d [] (y ∷ ys) e h = absurd (omega arith)
  get_or_ext d (x ∷ xs) [] e h = absurd (omega arith)
  get_or_ext d (x ∷ xs) (y ∷ ys) e h =
      ap₂ ◌∷◌ (h 0) (get_or_ext d xs ys (omega arith) (λ i. h (suc i)))

pub read_word-eq :
    (raw : List ℕ) (i : ℕ) → i + 3 < length raw → read_word raw i ≡ some (word_at raw i)
unfolding read_word word_at
read_word-eq raw i h = ground (
  arith,
  get_elem?-eq-get_or raw i 0,
  get_elem?-eq-get_or raw (i + 1) 0,
  get_elem?-eq-get_or raw (i + 2) 0,
  get_elem?-eq-get_or raw (i + 3) 0,
)

pub word_at-lt : (raw : List ℕ) (i : ℕ) → IsBytes raw → word_at raw i < 2 ^ 32
unfolding word_at
word_at-lt raw i b = omega (arith, b i, b (i + 1), b (i + 2), b (i + 3))

-- What a written word leaves in the slice.
abbrev pub written : List ℕ → ℕ → ℕ → ℕ → ℕ
written raw i v j =
    if i + 3 == j
    then byte_of 3 v
    else if i + 2 == j
    then byte_of 2 v
    else if i + 1 == j
    then byte_of 1 v
    else if i == j
    then byte_of 0 v
    else get_or raw j 0

pub record IsWritten (raw : List ℕ) (i v : ℕ) (out : List ℕ) : Type 0 where
  pub done : write_word raw i v ≡ some out
  pub same_length : length out ≡ length raw
  pub bytes : (j : ℕ) → get_or out j 0 ≡ written raw i v j

pub length-put_word : (raw : List ℕ) (i v : ℕ) → length (put_word raw i v) ≡ length raw
length-put_word raw i v = simp length-set

pub write_word-IsWritten :
    (raw : List ℕ) (i v : ℕ) → i + 3 < length raw → IsWritten raw i v (put_word raw i v)
unfolding write_word
write_word-IsWritten raw i v h = record {
  done = ground arith;
  same_length = length-put_word raw i v;
  bytes = λ j.
      let s0 = set raw i (byte_of 0 v) in
      let s1 = set s0 (i + 1) (byte_of 1 v) in
      let s2 = set s1 (i + 2) (byte_of 2 v) in
      rw
        (
          get_or-set s2 (i + 3) j (byte_of 3 v) 0 (simp length-set h),
          get_or-set s1 (i + 2) j (byte_of 2 v) 0 (simp length-set (omega arith)),
          get_or-set s0 (i + 1) j (byte_of 1 v) 0 (simp length-set (omega arith)),
          get_or-set raw i j (byte_of 0 v) 0 (omega arith),
        )
        refl;
}

pub word_at-put_self :
    (raw : List ℕ) (i v : ℕ) → i + 3 < length raw → v < 2 ^ 32 → word_at (put_word raw i v) i ≡ v
unfolding word_at
word_at-put_self raw i v h b =
    let w = (write_word-IsWritten raw i v h).bytes in
    rw (w i, w (i + 1), w (i + 2), w (i + 3)) (ground arith)

pub word_at-put_ne :
    (raw : List ℕ) (i j v : ℕ)
    → i + 3 < length raw
    → (i + 3 < j) ⊎ (j + 3 < i)
    → word_at (put_word raw i v) j ≡ word_at raw j
unfolding word_at
word_at-put_ne raw i j v h apart =
    let w = (write_word-IsWritten raw i v h).bytes in
    rw (w j, w (j + 1), w (j + 2), w (j + 3)) (ground arith)

pub put_word-IsBytes :
    (raw : List ℕ) (i v : ℕ) → i + 3 < length raw → IsBytes raw → IsBytes (put_word raw i v)
put_word-IsBytes raw i v h b j = rw ((write_word-IsWritten raw i v h).bytes j) (ground (arith, b j))

-- Writing the word that is already there changes nothing, also after another was written over it.
pub put_word_back :
    (raw : List ℕ) (i v : ℕ)
    → i + 3 < length raw
    → IsBytes raw
    → put_word (put_word raw i v) i (word_at raw i) ≡ raw
unfolding word_at
put_word_back raw i v h b =
    get_or_ext 0 _ _ (length-put_word (put_word raw i v) i _ ∙ length-put_word raw i v) λ j.
      let first = (write_word-IsWritten raw i v h).bytes j in
      let second =
        (write_word-IsWritten (put_word raw i v) i (word_at raw i) (rw length-put_word h)).bytes
          j in
      rw (second, first) (ground (arith, b i, b (i + 1), b (i + 2), b (i + 3)))

pub put_word_twice :
    (raw : List ℕ) (i v w : ℕ)
    → i + 3 < length raw
    → put_word (put_word raw i v) i w ≡ put_word raw i w
put_word_twice raw i v w h = get_or_ext 0 _ _ (simp length-set) λ j.
    rw
      (
        (write_word-IsWritten (put_word raw i v) i w (rw length-put_word h)).bytes j,
        (write_word-IsWritten raw i v h).bytes j,
        (write_word-IsWritten raw i w h).bytes j,
      )
      (ground arith)

-- Words that do not overlap can be written in any order.
pub put_word_comm :
    (raw : List ℕ) (i j v w : ℕ)
    → i + 3 < length raw
    → j + 3 < length raw
    → (i + 3 < j) ⊎ (j + 3 < i)
    → put_word (put_word raw i v) j w ≡ put_word (put_word raw j w) i v
put_word_comm raw i j v w p q apart = get_or_ext 0 _ _ (simp length-set) λ k.
    rw
      (
        (write_word-IsWritten (put_word raw i v) j w (rw length-put_word q)).bytes k,
        (write_word-IsWritten raw i v p).bytes k,
        (write_word-IsWritten (put_word raw j w) i v (rw length-put_word p)).bytes k,
        (write_word-IsWritten raw j w q).bytes k,
      )
      (ground arith)
