-- ===== src/Crypt/Blocks/Laws.antt =====
-- Decryption undoes encryption over whole packets, whatever the block cipher is.
use l2go.Prelude.{
  ℕ, zero, suc, ◌+◌, ◌*◌, ◌/◌, ◌%◌, ◌≤◌, ◌≡◌, refl, sym, ap, ◌∙◌, List, [], ◌∷◌, ◌++◌, arith,
  length, take, drop, length-append, length-take, length-drop, take-append-drop, take-append,
  drop-append, drop-drop,
}
use l2go.Crypt.Blocks.{BlockCipher, ok, each_block, blowfish_encrypt, blowfish_decrypt}

-- The same by the blocks that are left.
by_block : (List ℕ → List ℕ) → ℕ → List ℕ → List ℕ
by_block f zero raw = []
by_block f (suc left) raw = f (take 8 raw) ++ by_block f left (drop 8 raw)

each_block-eq :
    (f : List ℕ → List ℕ) (left i : ℕ) (raw : List ℕ)
    → each_block f left i raw ≡ by_block f left (drop (i * 8) raw)
unfolding each_block by_block
each_block-eq f zero i raw = refl
each_block-eq f (suc left) i raw = ap (◌++◌ (f (take 8 (drop (i * 8) raw)))) (
    each_block-eq f left (i + 1) raw
    ∙ ap (by_block f left) (ap (λ k. drop k raw) (omega arith) ∙ sym (drop-drop 8 (i * 8) raw)))

module _ (f g : List ℕ → List ℕ) (size : (b : List ℕ) → length b ≡ 8 → length (f b) ≡ 8)
    (undoes : (b : List ℕ) → length b ≡ 8 → g (f b) ≡ b) where
  by_block-undoes :
      (n : ℕ) (raw : List ℕ) → length raw ≡ 8 * n → by_block g n (by_block f n raw) ≡ raw
  unfolding by_block
  by_block-undoes zero [] e = refl
  by_block-undoes zero (x ∷ raw) e = absurd (omega arith)
  by_block-undoes (suc n) raw e =
      let eight : length (take 8 raw) ≡ 8 = omega (arith, length-take 8 raw) in
      let whole = size (take 8 raw) eight in
      rw
        (
          take-append 8 (f (take 8 raw)) (by_block f n (drop 8 raw)) whole,
          drop-append 8 (f (take 8 raw)) (by_block f n (drop 8 raw)) whole,
          undoes (take 8 raw) eight,
          by_block-undoes n (drop 8 raw) (omega (arith, length-drop 8 raw)),
        )
        (take-append-drop 8 raw)

  length-by_block : (n : ℕ) (raw : List ℕ) → length raw ≡ 8 * n → length (by_block f n raw) ≡ 8 * n
  unfolding by_block
  length-by_block zero raw e = omega arith
  length-by_block (suc n) raw e = omega (
    arith,
    length-append (f (take 8 raw)) (by_block f n (drop 8 raw)),
    size (take 8 raw) (omega (arith, length-take 8 raw)),
    length-by_block n (drop 8 raw) (omega (arith, length-drop 8 raw)),
  )

-- With a key of 1 to 56 bytes and a packet of whole blocks, encryption succeeds, keeps the
-- length, and decryption with the same key gives the packet back.
pub blowfish_decrypt-encrypt :
    (b : BlockCipher) (raw key : List ℕ)
    → length raw % 8 ≡ 0
    → 1 ≤ length key
    → length key ≤ 56
    → (out : List ℕ) × (blowfish_encrypt b raw key ≡ ok out)
      × (length out ≡ length raw)
      × (blowfish_decrypt b out key ≡ ok raw)
unfolding blowfish_encrypt blowfish_decrypt
blowfish_decrypt-encrypt b raw key w lo hi =
    let (cipher, made) = b.key_size key lo hi in
    let f = b.encrypt_block cipher in
    let g = b.decrypt_block cipher in
    let n = length raw / 8 in
    let size : length raw ≡ 8 * n = omega (arith, w) in
    let sent : List ℕ = each_block f n 0 raw in
    let sent-eq : sent ≡ by_block f n raw = each_block-eq f n 0 raw in
    let same : length sent ≡ length raw =
      rw sent-eq
        (length-by_block f g (b.encrypted_size cipher) (b.undoes cipher) n raw size ∙ sym size) in
    let back : each_block g n 0 sent ≡ raw =
      each_block-eq g n 0 sent
      ∙ rw sent-eq (by_block-undoes f g (b.encrypted_size cipher) (b.undoes cipher) n raw size) in
    (
      sent,
      rw (made, blowfish_encrypt) (ground arith),
      same,
      rw (made, blowfish_decrypt, same, back) (ground arith),
    )
