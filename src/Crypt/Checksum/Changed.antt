-- ===== src/Crypt/Checksum/Changed.antt =====
-- A change to one word changes the sum.
use l2go.Prelude.{
  ℕ, zero, suc, ◌+◌, ◌-◌, ◌*◌, ◌/◌, ◌^◌, ◌≤◌, ◌<◌, bit_xor, bit_xor-cancel, bit_xor_comm, ◌≡◌, ◌≢◌,
  sym, ◌∙◌, ap, some, List, arith, ◌==◌, length, inl, inr, Bool-cases,
}
use l2go.Crypt.Words.{word_at, word_at-put_self, word_at-put_ne, length-put_word, put_word}
use l2go.Crypt.Checksum.{verify_checksum}
use l2go.Crypt.Checksum.Loop.{xor_words, xor_words_ext, IsPacket, data_sum, verify_checksum-eq}

pub xor_words-injective :
    (n : ℕ) (raw : List ℕ) (i a b : ℕ) → xor_words n raw i a ≡ xor_words n raw i b → a ≡ b
unfolding xor_words
xor_words-injective zero raw i a b h = h
xor_words-injective (suc n) raw i a b h =
    sym (bit_xor-cancel a (word_at raw i))
    ∙ ap (λ t. bit_xor t (word_at raw i)) (xor_words-injective n raw (i + 4) _ _ h)
    ∙ bit_xor-cancel b (word_at raw i)

pub bit_xor-injective_right : (a v w : ℕ) → bit_xor a v ≡ bit_xor a w → v ≡ w
bit_xor-injective_right a v w h =
    ground (arith, bit_xor-cancel v a, bit_xor-cancel w a, bit_xor_comm a v, bit_xor_comm a w)

-- `k` is the number of words before the changed one, which stands at `j`.
pub xor_words_changed :
    (n k : ℕ) (raw : List ℕ) (i j acc v : ℕ)
    → k < n
    → j ≡ i + 4 * k
    → i + 4 * n ≤ length raw
    → v < 2 ^ 32
    → xor_words n (put_word raw j v) i acc ≡ xor_words n raw i acc
    → v ≡ word_at raw j
unfolding xor_words
xor_words_changed zero k raw i j acc v h at l b e = absurd (omega arith)
xor_words_changed (suc n) zero raw i j acc v h at l b e =
    bit_xor-injective_right acc v (word_at raw j)
      (xor_words-injective n raw (i + 4) _ _ (sym same ∙ first))
  where
    here : i ≡ j
    here = omega arith

    self : word_at (put_word raw j v) i ≡ v
    self = rw here (word_at-put_self raw j v (omega arith) b)

    first :
        xor_words n (put_word raw j v) (i + 4) (bit_xor acc v)
        ≡ xor_words n raw (i + 4) (bit_xor acc (word_at raw j))
    first =
        ap (λ t. xor_words n (put_word raw j v) (i + 4) (bit_xor acc t)) (sym self)
        ∙ e
        ∙ ap (λ t. xor_words n raw (i + 4) (bit_xor acc (word_at raw t))) here

    same :
        xor_words n (put_word raw j v) (i + 4) (bit_xor acc v)
        ≡ xor_words n raw (i + 4) (bit_xor acc v)
    same =
        xor_words_ext n raw (put_word raw j v) (i + 4) _
          λ m lo hi. word_at-put_ne raw j m v (omega arith) (omega arith)
xor_words_changed (suc n) (suc k) raw i j acc v h at l b e =
    xor_words_changed n k raw (i + 4) j (bit_xor acc (word_at raw i)) v (omega arith) (omega arith)
      (omega arith) b (rw (word_at-put_ne raw j i v (omega arith) (omega arith)) at e)

module _ (raw : List ℕ) (m v : ℕ) (p : IsPacket raw) (inside : 4 * m + 4 ≤ length raw)
    (fits : v < 2 ^ 32) where
  abbrev pub altered : List ℕ
  altered = put_word raw (4 * m) v

  altered-length : length altered ≡ length raw
  altered-length = length-put_word raw (4 * m) v

  pub verify-altered :
      verify_checksum altered
      ≡ some (word_at altered (length raw - 4) == xor_words (length raw / 4 - 1) altered 0 0)
  verify-altered =
      rw (verify_checksum-eq altered (rw altered-length p.whole) (rw altered-length p.long))
        (rw altered-length)

  -- Both sides of the comparison before and after the change, if both checks pass.
  pub altered_same :
      word_at altered (length raw - 4) ≡ xor_words (length raw / 4 - 1) altered 0 0
      → word_at raw (length raw - 4) ≡ data_sum raw
      → v ≡ word_at raw (4 * m)
  altered_same after before = elim (Bool-cases (4 * m == length raw - 4)) [
    | inl last ↦
        let at : 4 * m ≡ length raw - 4 = ground arith in
        let now : word_at altered (length raw - 4) ≡ v =
          rw (← at) (word_at-put_self raw (4 * m) v (omega arith) fits) in
        let kept : xor_words (length raw / 4 - 1) altered 0 0 ≡ data_sum raw =
          xor_words_ext (length raw / 4 - 1) raw altered 0 0
            (λ k lo hi. word_at-put_ne raw (4 * m) k v (omega arith) (omega arith)) in
        sym now ∙ after ∙ kept ∙ sym before ∙ ap (word_at raw) (sym at)
    | inr other ↦
        let apart : 4 * m ≢ length raw - 4 = ground arith in
        let kept : word_at altered (length raw - 4) ≡ word_at raw (length raw - 4) =
          word_at-put_ne raw (4 * m) (length raw - 4) v (omega arith)
            (omega (arith, p.whole, p.long)) in
        xor_words_changed (length raw / 4 - 1) m raw 0 (4 * m) 0 v (omega (arith, p.whole))
          (omega arith) (omega arith) fits (sym after ∙ kept ∙ before)
  ]
