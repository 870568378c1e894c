-- ===== src/Crypt/XorPass/Rounds.antt =====
-- The loops of the XOR pass over whole words: the forward one, the list of blocks, and the
-- backward one as a fold from the right, which undoes the first.
use l2go.Prelude.{
  ℕ, zero, suc, ◌+◌, ◌*◌, ◌^◌, ◌≤◌, ◌<◌, ◌≡◌, refl, sym, ap, ◌∙◌, inr, bit_xor, bit_xor-lt,
  bit_xor-cancel, Option, some, List, [], ◌∷◌, ◌++◌, arith, length, length-append,
}
use mathlib.Core.List.{reverse, reverse-cons}
use l2go.Crypt.Words.{
  IsBytes, word_at, word_at-lt, read_word-eq, write_word, write_word-IsWritten, word_at-put_self,
  word_at-put_ne, length-put_word, put_word, put_word-IsBytes, put_word_back, put_word_comm, ◌>>=◌,
  >>=-assoc, >>=-cong,
}
use l2go.Crypt.XorPass.{add32, sub32, enc_loop, collect, dec_loop}

pub enc_words : ℕ → List ℕ → ℕ → ℕ → List ℕ × ℕ
enc_words zero raw pos key = (raw, key)
enc_words (suc n) raw pos key =
    let key' = add32 key (word_at raw pos) in
    enc_words n (put_word raw pos (bit_xor (word_at raw pos) key')) (pos + 4) key'

pub enc_loop-eq :
    (n fuel : ℕ) (raw : List ℕ) (pos stop key : ℕ)
    → n < fuel
    → pos + 4 * n ≡ stop
    → stop ≤ length raw
    → enc_loop fuel raw pos stop key
      ≡ some ((enc_words n raw pos key).0, stop, (enc_words n raw pos key).1)
unfolding enc_loop enc_words
enc_loop-eq n zero raw pos stop key f e h = absurd (omega arith)
enc_loop-eq zero (suc fuel) raw pos stop key f e h = ground arith
enc_loop-eq (suc n) (suc fuel) raw pos stop key f e h =
    let key' = add32 key (word_at raw pos) in
    let edx = bit_xor (word_at raw pos) key' in
    ground (
      arith,
      read_word-eq raw pos,
      (write_word-IsWritten raw pos edx (omega arith)).done,
      enc_loop-eq n fuel (put_word raw pos edx) (pos + 4) stop key' (omega arith) (omega arith)
          (rw length-put_word h),
    )

pub blocks : ℕ → List ℕ → ℕ → List ℕ
blocks zero raw i = []
blocks (suc n) raw i = word_at raw i ∷ blocks n raw (i + 4)

pub collect-eq :
    (n fuel : ℕ) (raw : List ℕ) (i stop : ℕ)
    → n < fuel
    → i + 4 * n ≡ stop
    → stop ≤ length raw
    → collect fuel raw i stop ≡ some (blocks n raw i)
unfolding collect blocks
collect-eq n zero raw i stop f e h = absurd (omega arith)
collect-eq zero (suc fuel) raw i stop f e h = ground arith
collect-eq (suc n) (suc fuel) raw i stop f e h =
    ground
      (arith, read_word-eq raw i, collect-eq n fuel raw (i + 4) stop (omega arith) (omega arith) h)

-- The backward loop as a fold from the right.
pub undo : List ℕ → ℕ → ℕ → List ℕ → List ℕ × ℕ
undo [] pos key raw = (raw, key)
undo (b ∷ bs) pos key raw =
    let (raw', key') = undo bs (pos + 4) key raw in
    (put_word raw' pos (bit_xor b key'), sub32 key' (bit_xor b key'))

length-undo :
    (bs : List ℕ) (pos key : ℕ) (raw : List ℕ) → length (undo bs pos key raw).0 ≡ length raw
unfolding undo
length-undo [] pos key raw = refl
length-undo (b ∷ bs) pos key raw =
    length-put_word (undo bs (pos + 4) key raw).0 pos _ ∙ length-undo bs (pos + 4) key raw

abbrev dec_step : ℕ → ℕ → List ℕ × ℕ → Option (List ℕ × ℕ)
dec_step b pos (raw, key) = do
  raw' ← write_word raw pos (bit_xor b key)
  some (raw', sub32 key (bit_xor b key))

dec_loop-snoc :
    (xs : List ℕ) (b pos key : ℕ) (raw : List ℕ)
    → dec_loop (xs ++ b ∷ []) pos key raw ≡ (dec_loop xs (pos + 4) key raw >>= dec_step b pos)
unfolding dec_loop
dec_loop-snoc [] b pos key raw = ground arith
dec_loop-snoc (x ∷ xs) b pos key raw =
    let at : pos + length (xs ++ b ∷ []) * 4 ≡ pos + 4 + length xs * 4 =
      omega (arith, length-append xs (b ∷ [])) in
    rw at (
      >>=-cong (write_word raw (pos + 4 + length xs * 4) (bit_xor x key)) _ _
        (λ raw'. dec_loop-snoc xs b pos (sub32 key (bit_xor x key)) raw')
      ∙ sym
          (>>=-assoc (write_word raw (pos + 4 + length xs * 4) (bit_xor x key)) _ (dec_step b pos)))

pub dec_loop-eq :
    (bs : List ℕ) (pos key : ℕ) (raw : List ℕ)
    → pos + 4 * length bs ≤ length raw
    → dec_loop (reverse bs) pos key raw ≡ some (undo bs pos key raw)
unfolding dec_loop undo
dec_loop-eq [] pos key raw h = refl
dec_loop-eq (b ∷ bs) pos key raw h =
    let (raw', key') = undo bs (pos + 4) key raw in
    let fits : pos + 3 < length raw' = rw (length-undo bs (pos + 4) key raw) (omega arith) in
    rw
      (
        reverse-cons b bs,
        dec_loop-snoc (reverse bs) b pos key raw,
        dec_loop-eq bs (pos + 4) key raw (omega arith),
      )
      (rw (write_word-IsWritten raw' pos (bit_xor b key') fits).done)

-- Encryption works upwards and leaves the words below it alone.
enc_words_below :
    (n : ℕ) (raw : List ℕ) (pos key j : ℕ)
    → pos + 4 * n ≤ length raw
    → j + 3 < pos
    → word_at (enc_words n raw pos key).0 j ≡ word_at raw j
unfolding enc_words
enc_words_below zero raw pos key j h b = refl
enc_words_below (suc n) raw pos key j h b =
    enc_words_below n (put_word raw pos _) (pos + 4) _ j
      (rw (length-put_word raw pos) (omega arith)) (omega arith)
    ∙ word_at-put_ne raw pos j _ (omega arith) (inr b)

-- So it does not matter whether a word above is written before or after.
pub enc_words-put :
    (n : ℕ) (raw : List ℕ) (pos key stop v : ℕ)
    → pos + 4 * n ≤ stop
    → stop + 3 < length raw
    → enc_words n (put_word raw stop v) pos key
      ≡ (put_word (enc_words n raw pos key).0 stop v, (enc_words n raw pos key).1)
unfolding enc_words
enc_words-put zero raw pos key stop v h l = refl
enc_words-put (suc n) raw pos key stop v h l =
    rw
      (
        word_at-put_ne raw stop pos v l (omega arith),
        put_word_comm raw stop pos v _ l (omega arith) (omega arith),
      )
      (enc_words-put n (put_word raw pos _) (pos + 4) _ stop v (omega arith)
        (rw (length-put_word raw pos) l))

pub undo-enc_words :
    (n : ℕ) (raw : List ℕ) (pos key : ℕ)
    → IsBytes raw
    → key < 2 ^ 32
    → pos + 4 * n ≤ length raw
    → undo
        (blocks n (enc_words n raw pos key).0 pos)
        pos
        (enc_words n raw pos key).1
        (enc_words n raw pos key).0
      ≡ (raw, key)
unfolding undo blocks enc_words
undo-enc_words zero raw pos key b k h = refl
undo-enc_words (suc n) raw pos key b k h =
    let w = word_at raw pos in
    let key' = add32 key w in
    let edx = bit_xor w key' in
    let raw' = put_word raw pos edx in
    let edx_fits : edx < 2 ^ 32 = bit_xor-lt 32 w key' (word_at-lt raw pos b) (omega arith) in
    let room : pos + 4 + 4 * n ≤ length raw' = rw (length-put_word raw pos) (omega arith) in
    let first : word_at (enc_words n raw' (pos + 4) key').0 pos ≡ edx =
      enc_words_below n raw' (pos + 4) key' pos room (omega arith)
      ∙ word_at-put_self raw pos edx (omega arith) edx_fits in
    let back : sub32 key' w ≡ key = omega (arith, word_at-lt raw pos b) in
    rw
      (
        undo-enc_words n raw' (pos + 4) key' (put_word-IsBytes raw pos edx (omega arith) b)
            (omega arith) room,
        first,
        bit_xor-cancel w key',
        put_word_back raw pos edx (omega arith) b,
        back,
      )
      refl

pub length-enc_words :
    (n : ℕ) (raw : List ℕ) (pos key : ℕ) → length (enc_words n raw pos key).0 ≡ length raw
unfolding enc_words
length-enc_words zero raw pos key = refl
length-enc_words (suc n) raw pos key =
    length-enc_words n (put_word raw pos _) (pos + 4) _ ∙ length-put_word raw pos _

pub length-blocks : (n : ℕ) (raw : List ℕ) (i : ℕ) → length (blocks n raw i) ≡ n
unfolding blocks
length-blocks zero raw i = refl
length-blocks (suc n) raw i = ap suc (length-blocks n raw (i + 4))

pub enc_words_key-lt :
    (n : ℕ) (raw : List ℕ) (pos key : ℕ) → key < 2 ^ 32 → (enc_words n raw pos key).1 < 2 ^ 32
unfolding enc_words
enc_words_key-lt zero raw pos key k = k
enc_words_key-lt (suc n) raw pos key k =
    enc_words_key-lt n (put_word raw pos _) (pos + 4) _ (omega arith)
