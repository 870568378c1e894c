-- ===== src/Crypt/Game/Tests.antt =====
-- A key of 16 bytes and two packets after the first.
use l2go.Prelude.{ℕ, ◌≡◌, refl, List, [], ◌∷◌, arith}
use l2go.Crypt.Words.{put_word, word_at}
use l2go.Crypt.Game.{encrypt, encrypt_from, advance}
use l2go.Crypt.Game.Laws.{sender, receiver, exchange, exchange-handshake}

abbrev key : List ℕ
key = 0x94 ∷ 0x35 ∷ 0 ∷ 0 ∷ 0xa1 ∷ 0x6c ∷ 0x54 ∷ 0x87 ∷ 250 ∷ 255 ∷ 255 ∷ 255 ∷ 1 ∷ 2 ∷ 3 ∷ 4 ∷ []

abbrev packets : List (List ℕ)
packets = (1 ∷ 2 ∷ 3 ∷ []) ∷ (0 ∷ 255 ∷ []) ∷ []

-- The counter in bytes 8 to 11 wraps.
key_advances : advance key 10 ≡ put_word key 8 4
unfolding advance word_at
key_advances = refl

first_bytes : encrypt_from key 0 0 (1 ∷ 2 ∷ []) ≡ 0x95 ∷ 0xa2 ∷ []
unfolding encrypt_from
first_bytes = refl

exchange-handshake_example :
    ((encrypt (sender key) (7 ∷ [])).1 ≡ 7 ∷ [])
    × (exchange (encrypt (sender key) (7 ∷ [])).0 (receiver key) packets ≡ packets)
exchange-handshake_example =
    exchange-handshake key (7 ∷ []) packets (omega arith) (omega arith) (omega arith)
