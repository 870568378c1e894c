-- ===== src/Crypt/Game/Laws.antt =====
-- Two ends that were given one key stay in step over any sequence of packets.
use l2go.Prelude.{
  ℕ, zero, suc, ◌+◌, ◌%◌, ◌^◌, ◌<◌, ◌≡◌, refl, ap, ap₂, ◌∙◌, bit_xor, bit_xor-lt, bit_xor-cancel,
  bit_xor_right_comm, true, List, [], ◌∷◌, arith, length, get_or, All, take, length-take, ◌≤◌, leb,
}
use l2go.Crypt.Words.{IsBytes, word_at, put_word-IsBytes, length-put_word}
use l2go.Crypt.Game.{
  Crypt, new, set_key, enable_decrypt, decrypt_from, encrypt_from, advance, decrypt, encrypt,
}

abbrev pub AreBytes : List ℕ → Type 0
AreBytes = All (λ b. b < 256)

decrypt_from-encrypt_from :
    (key : List ℕ) (i temp : ℕ) (raw : List ℕ)
    → IsBytes key
    → temp < 256
    → AreBytes raw
    → decrypt_from key i temp (encrypt_from key i temp raw) ≡ raw
unfolding decrypt_from encrypt_from
decrypt_from-encrypt_from key i temp [] k t b = refl
decrypt_from-encrypt_from key i temp (x ∷ raw) k t b =
    let mask = get_or key (i % 16) 0 in
    let sent = bit_xor (bit_xor x mask) temp in
    let sent_fits : sent < 256 =
      bit_xor-lt 8 (bit_xor x mask) temp (bit_xor-lt 8 x mask b.0 (k (i % 16))) t in
    let whole : sent % 2 ^ 8 ≡ sent = omega arith in
    let back : bit_xor (bit_xor sent mask) temp ≡ x =
      bit_xor_right_comm sent mask temp
      ∙ ap (λ c. bit_xor c mask) (bit_xor-cancel (bit_xor x mask) temp)
      ∙ bit_xor-cancel x mask in
    rw (whole, back)
      (ap₂ ◌∷◌ (omega arith) (decrypt_from-encrypt_from key (i + 1) sent raw k sent_fits b.1))

length-encrypt_from :
    (key : List ℕ) (i temp : ℕ) (raw : List ℕ) → length (encrypt_from key i temp raw) ≡ length raw
unfolding encrypt_from
length-encrypt_from key i temp [] = refl
length-encrypt_from key i temp (x ∷ raw) = ap suc (length-encrypt_from key (i + 1) _ raw)

-- A key of the cipher: the array of 16 bytes.
pub record IsKey (key : List ℕ) : Type 0 where
  pub sixteen : length key ≡ 16
  pub bytes : IsBytes key

advance-IsKey : (key : List ℕ) (size : ℕ) → IsKey key → IsKey (advance key size)
unfolding advance
advance-IsKey key size k = record {
  sixteen = length-put_word key 8 (word_at key 8 + size) ∙ k.sixteen;
  bytes = put_word-IsBytes key 8 (word_at key 8 + size) (omega (arith, k.sixteen)) k.bytes;
}

-- A sender and a receiver that are ready for the next packet.
pub record InStep (s r : Crypt) : Type 0 where
  pub same_key : s.out_key ≡ r.in_key
  pub key : IsKey s.out_key
  pub receiving : r.in_enabled ≡ true
  pub sending : s.out_enabled ≡ true

-- One packet from the sender to the receiver.
pub deliver : Crypt → Crypt → List ℕ → Crypt × Crypt × List ℕ
deliver s r raw = let (s', sent) = encrypt s raw in let (r', got) = decrypt r sent in (s', r', got)

deliver-InStep :
    (s r : Crypt) (raw : List ℕ)
    → InStep s r
    → AreBytes raw
    → ((deliver s r raw).2 ≡ raw) × InStep (deliver s r raw).0 (deliver s r raw).1
unfolding deliver encrypt decrypt
deliver-InStep s r raw i b = ground (
  arith,
  decrypt_from-encrypt_from s.out_key 0 0 raw i.key.bytes (omega arith) b,
  length-encrypt_from s.out_key 0 0 raw,
  advance-IsKey s.out_key (length raw) i.key,
)

-- Packet after packet; the result is what the receiver reads.
pub exchange : Crypt → Crypt → List (List ℕ) → List (List ℕ)
exchange s r [] = []
exchange s r (raw ∷ rest) = let (s', r', got) = deliver s r raw in got ∷ exchange s' r' rest

exchange-InStep :
    (s r : Crypt) (packets : List (List ℕ))
    → InStep s r
    → All AreBytes packets
    → exchange s r packets ≡ packets
unfolding exchange
exchange-InStep s r [] i b = refl
exchange-InStep s r (raw ∷ rest) i b =
    let one = deliver-InStep s r raw i b.0 in
    ap₂ ◌∷◌ one.0 (exchange-InStep (deliver s r raw).0 (deliver s r raw).1 rest one.1 b.1)

take-IsBytes : (n : ℕ) (xs : List ℕ) → AreBytes xs → IsBytes (take n xs)
take-IsBytes zero xs b j = omega arith
take-IsBytes (suc n) [] b j = omega arith
take-IsBytes (suc n) (x ∷ xs) b zero = b.0
take-IsBytes (suc n) (x ∷ xs) b (suc j) = take-IsBytes n xs b.1 j

abbrev pub sender : List ℕ → Crypt
sender key = set_key new key

abbrev pub receiver : List ℕ → Crypt
receiver key = enable_decrypt (set_key new key)

handshake-InStep :
    (key first : List ℕ)
    → 16 ≤ length key
    → AreBytes key
    → InStep (encrypt (sender key) first).0 (receiver key)
unfolding encrypt set_key enable_decrypt
handshake-InStep key first l b =
    let long : leb 16 (length key) ≡ true = ground arith in
    rw long (record {
      same_key = refl;
      key = record { sixteen = omega (arith, length-take 16 key); bytes = take-IsBytes 16 key b };
      receiving = refl;
      sending = refl;
    })

-- After both ends were given a key of at least 16 bytes, the sender's first packet goes out in
-- clear, and the receiver, enabled from then on, reads every later packet as it was sent.
pub exchange-handshake :
    (key first : List ℕ) (packets : List (List ℕ))
    → 16 ≤ length key
    → AreBytes key
    → All AreBytes packets
    → ((encrypt (sender key) first).1 ≡ first)
      × (exchange (encrypt (sender key) first).0 (receiver key) packets ≡ packets)
exchange-handshake key first packets l b p = (
  unfold encrypt set_key in ground arith,
  exchange-InStep _ _ packets (handshake-InStep key first l b) p,
)
