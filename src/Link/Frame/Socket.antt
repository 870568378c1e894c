-- ===== src/Link/Frame/Socket.antt =====
-- What the two kinds of reads return of bytes that arrive in any portions.
use l2go.Prelude.{
  ℕ, zero, suc, ◌+◌, ◌-◌, ◌≤◌, ◌<◌, ◌≡◌, refl, sym, ap, ap₂, ◌∙◌, inl, inr, true, false, Bool-cases,
  some, List, [], ◌∷◌, ◌++◌, All, ltb, leb, leb→le, arith, length, take, drop, length-append,
  length-take, length-drop, take-append, drop-append, take-append-drop,
}
use mathlib.Core.List.{append_assoc, append-nil}
use l2go.Link.Frame.{Socket, read_once, read_full}

-- All that is to come.
unfoldable pub stream : Socket → List ℕ
stream [] = []
stream (c ∷ cs) = c ++ stream cs

-- A read returns something, unless it asks for nothing.
abbrev pub IsLive : Socket → Type 0
IsLive s = All (λ (c : List ℕ). 1 ≤ length c) s

-- A read of up to n bytes returns the next ones, at least one of them.
read_once-stream :
    (n : ℕ) (s : Socket)
    → IsLive s
    → 1 ≤ n
    → 1 ≤ length (stream s)
    → (got : List ℕ) × (s' : Socket) × (read_once n s ≡ some (got, s'))
      × (stream s ≡ got ++ stream s')
      × IsLive s'
      × (1 ≤ length got)
      × (length got ≤ n)
unfolding read_once stream
read_once-stream zero s h k l = absurd (omega arith)
read_once-stream (suc n) [] h k l = absurd (omega arith)
read_once-stream (suc n) (c ∷ cs) h k l = elim (Bool-cases (leb (length c) (suc n))) [
  | inl all ↦ (c, cs, rw all refl, refl, h.1, h.0, leb→le _ _ all)
  | inr part ↦
      let more : suc n < length c = ground arith in
      (
        take (suc n) c,
        drop (suc n) c ∷ cs,
        rw part refl,
        ap (λ x. x ++ stream cs) (sym (take-append-drop (suc n) c))
            ∙ append_assoc (take (suc n) c) (drop (suc n) c) (stream cs),
        (omega (arith, length-drop (suc n) c), h.1),
        omega (arith, length-take (suc n) c),
        omega (arith, length-take (suc n) c),
      )
]

-- Two ways to cut one list.
pub cut :
    (us xs bs ys : List ℕ)
    → us ++ xs ≡ bs ++ ys
    → length us ≤ length bs
    → (bs ≡ us ++ drop (length us) bs) × (xs ≡ drop (length us) bs ++ ys)
cut [] xs bs ys e l = (refl, e)
cut (a ∷ us) xs [] ys e l = absurd (omega arith)
cut (a ∷ us) xs (b ∷ bs) ys e l =
    let head : a ≡ b = cc in
    let tail : us ++ xs ≡ bs ++ ys = cc in
    let (same, rest) = cut us xs bs ys tail (omega arith) in (ap₂ ◌∷◌ (sym head) same, rest)

-- The loop gathers n bytes, however they come.
pub read_full-stream :
    (fuel n : ℕ) (got bs rest : List ℕ) (s : Socket)
    → IsLive s
    → stream s ≡ bs ++ rest
    → length got + length bs ≡ n
    → n < fuel + length got
    → (s' : Socket) × (read_full fuel n got s ≡ some (got ++ bs, s'))
      × (stream s' ≡ rest)
      × IsLive s'
unfolding read_full
read_full-stream zero n got bs rest s h e size small = absurd (omega arith)
read_full-stream (suc fuel) n got [] rest s h e size small =
    (s, rw append-nil (ground (arith, size)), e, h)
read_full-stream (suc fuel) n got (x ∷ bs) rest s h e size small =
    let all = x ∷ bs in
    let (more, s1, read, split, live, some_read, few) =
      read_once-stream (n - length got) s h (omega arith)
        (omega (arith, ap length e, length-append all rest)) in
    let (same, after) = cut more (stream s1) all rest (sym split ∙ e) (omega arith) in
    let longer = length-append got more in
    let (s', done, end, live') =
      read_full-stream fuel n (got ++ more) (drop (length more) all) rest s1 live after
        (omega (arith, size, longer, length-drop (length more) all, few)) (omega arith) in
    let unread : ltb (length got) n ≡ true = ground (arith, size) in
    (
      s',
      rw (unread, read)
          (done ∙ ap (λ t. some (t, s')) (append_assoc got more _ ∙ ap (◌++◌ got) (sym same))),
      end,
      live',
    )

-- A single read of n bytes gets them when they are the first of a portion.
pub read_once-part :
    (n : ℕ) (bs more : List ℕ) (cs : Socket)
    → 1 ≤ n
    → length bs ≡ n
    → 1 ≤ length more
    → read_once n ((bs ++ more) ∷ cs) ≡ some (bs, more ∷ cs)
unfolding read_once
read_once-part zero bs more cs k size long = absurd (omega arith)
read_once-part (suc n) bs more cs k size long =
    let whole : leb (length (bs ++ more)) (suc n) ≡ false =
      ground (arith, size, length-append bs more) in
    rw (whole, take-append (suc n) bs more size, drop-append (suc n) bs more size) refl

pub read_once-first :
    (n : ℕ) (bs more : List ℕ) (cs : Socket)
    → 1 ≤ n
    → length bs ≡ n
    → (s' : Socket) × (read_once n ((bs ++ more) ∷ cs) ≡ some (bs, s'))
      × (stream s' ≡ more ++ stream cs)
unfolding read_once stream
read_once-first zero bs more cs k size = absurd (omega arith)
read_once-first (suc n) bs [] cs k size =
    let short : leb (length (bs ++ [])) (suc n) ≡ true =
      ground (arith, size, length-append {0} bs []) in
    (cs, rw short (ap (λ t. some (t, cs)) (append-nil bs)), refl)
read_once-first (suc n) bs (x ∷ more) cs k size =
    ((x ∷ more) ∷ cs, read_once-part (suc n) bs (x ∷ more) cs k size (omega arith), refl)

-- A portion that is too short is all that a single read gets.
pub read_once-short :
    (n : ℕ) (c : List ℕ) (cs : Socket) → 1 ≤ n → length c ≤ n → read_once n (c ∷ cs) ≡ some (c, cs)
unfolding read_once
read_once-short zero c cs k l = absurd (omega arith)
read_once-short (suc n) c cs k l = ground arith
