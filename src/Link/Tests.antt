-- ===== src/Link/Tests.antt =====
-- A logout of the account "1" over a connection with an exchanged key, under a toy block cipher.
use l2go.Prelude.{
  ℕ, suc, ◌+◌, ◌≤◌, ◌<◌, ◌≡◌, true, refl, sym, ap, ◌∙◌, inl, ◌&&◌, Option, none, some, List, [],
  ◌∷◌, ◌++◌, arith, leb, if◌then◌else◌, length, take, drop, length-take, length-drop, length-append,
  take-append-drop,
}
use l2go.Packet.{le_bytes}
use l2go.Packet.Utf16.{encode}
use l2go.Packet.Units.{units_bytes}
use l2go.Packet.Cursor.{length-le_bytes}
use l2go.Packet.RoundTrip.{field_bytes, fields_bytes}
use l2go.Crypt.Blocks.{BlockCipher}
use l2go.Link.Outls.{get_data, fields}
use l2go.Link.Outls
use l2go.Link.Agree.{Fits, expected_of}
use l2go.Link.Agree.Reads.{left}
use l2go.Link.Agree.Laws.{get_data-eq}
use l2go.Link.Frame.{
  Socket, login_server_connection_send, game_server_send, game_server_receive,
  login_server_connection_receive,
}
use l2go.Link.Frame.Socket.{stream, IsLive}
use l2go.Link.Frame.Wire.{game_end, login_end, IsWire, game_end_sends}
use l2go.Link.Frame.Laws.{login_server_connection_receive-game_server_send, game_server_receive_cut}
use l2go.Link.Delivery.{handled, game_server_receive-login_server_connection_send}

-- Every other byte is swapped with the next.
abbrev swap : List ℕ → List ℕ
swap [] = []
swap (x ∷ []) = x ∷ []
swap (x ∷ y ∷ xs) = y ∷ x ∷ swap xs

swap-swap : (xs : List ℕ) → swap (swap xs) ≡ xs
swap-swap [] = refl
swap-swap (x ∷ []) = refl
swap-swap (x ∷ y ∷ xs) = ap (λ t. x ∷ y ∷ t) (swap-swap xs)

length-swap : (xs : List ℕ) → length (swap xs) ≡ length xs
length-swap [] = refl
length-swap (x ∷ []) = refl
length-swap (x ∷ y ∷ xs) = ap (λ t. suc (suc t)) (length-swap xs)

abbrev swap_key : List ℕ → Option (Unit {0})
swap_key key = if leb 1 (length key) && leb (length key) 56 then some tt else none

swap_key_size :
    (key : List ℕ) → 1 ≤ length key → length key ≤ 56 → (c : Unit {0}) × (swap_key key ≡ some c)
swap_key_size key lo hi = (tt, ground arith)

abbrev swapping : BlockCipher
swapping = record {
  Cipher = Unit {0};
  new_cipher = swap_key;
  encrypt_block = λ c b. swap b;
  decrypt_block = λ c b. swap b;
  key_size = swap_key_size;
  encrypted_size = λ c b e. length-swap b ∙ e;
  undoes = λ c b e. swap-swap b;
}

abbrev exchanged : Option (List ℕ)
exchanged = some (7 ∷ 8 ∷ 9 ∷ [])

abbrev logout : Outls.Packet
logout = Outls.player_logout (0x31 ∷ [])

logout-Fits : Fits logout
logout-Fits = (record { nonzero = omega arith; scalar = inl (omega arith); last = omega arith }, tt)

logout_data : get_data logout ++ [] ≡ 3 ∷ 0x31 ∷ 0 ∷ 0 ∷ 0 ∷ []
unfolding left fields fields_bytes field_bytes units_bytes encode le_bytes
logout_data = get_data-eq logout []

logout_short : length (get_data logout) < 65522
logout_short = omega (arith, ap length logout_data, length-append (get_data logout) [])

game_server_receive-login_server_connection_send_example :
    (wire : List ℕ) × (login_server_connection_send swapping (game_end exchanged) (get_data logout)
      ≡ some wire)
    × (handled true (game_server_receive swapping (login_end exchanged) ((wire ++ []) ∷ []))
        ≡ expected_of true logout)
game_server_receive-login_server_connection_send_example =
    game_server_receive-login_server_connection_send swapping exchanged true logout [] []
      (omega arith, omega arith) logout-Fits tt logout_short

-- One byte at a time.
abbrev bytewise : List ℕ → Socket
bytewise [] = []
bytewise (x ∷ xs) = (x ∷ []) ∷ bytewise xs

bytewise_carries : (w : List ℕ) → IsLive (bytewise w) × (stream (bytewise w) ≡ w ++ [])
unfolding stream
bytewise_carries [] = (tt, refl)
bytewise_carries (x ∷ xs) =
    let (live, e) = bytewise_carries xs in ((omega arith, live), ap (◌∷◌ x) e)

login_server_connection_receive-game_server_send_example :
    (wire : List ℕ) × (padding : List ℕ) × (s' : Socket) × (game_server_send swapping
        (login_end none)
        (5 ∷ 0x31 ∷ 0 ∷ [])
      ≡ some wire)
    × (login_server_connection_receive swapping (game_end none) (bytewise wire)
        ≡ some (5, (0x31 ∷ 0 ∷ []) ++ padding, s'))
    × (stream s' ≡ [])
login_server_connection_receive-game_server_send_example =
    login_server_connection_receive-game_server_send swapping bytewise [] none 5 (0x31 ∷ 0 ∷ [])
      bytewise_carries (omega arith, omega arith) (omega arith)
      (omega arith, (omega arith, (omega arith, tt)))

abbrev sent :
    (wire : List ℕ) × (login_server_connection_send swapping (game_end none) (5 ∷ []) ≡ some wire)
    × IsWire swapping none (5 ∷ []) wire
sent =
    game_end_sends swapping none (5 ∷ []) (omega arith, omega arith) (omega arith) (omega arith)
      (omega arith, tt)

sent_size : 10 ≤ length sent.0
sent_size =
    let w = sent.2 in
    omega (
      arith,
      w.size,
      w.is_sealed.room,
      w.is_sealed.whole,
      ap length w.is_framed,
      length-append (le_bytes 2 (length w.encrypted + 2)) w.encrypted,
      length-le_bytes 2 (length w.encrypted + 2),
    )

game_server_receive_cut_example :
    game_server_receive swapping (login_end none) (take 5 sent.0 ∷ drop 5 sent.0 ∷ []) ≡ none
game_server_receive_cut_example =
    game_server_receive_cut swapping none 5 [] sent.0 (take 5 sent.0) (drop 5 sent.0) []
      (omega arith, omega arith) (omega arith) (omega arith, tt) sent.1
      (sym (take-append-drop 5 sent.0)) (omega (arith, sent_size, length-take 5 sent.0))
      (omega (arith, sent_size, length-drop 5 sent.0))
      (λ e. absurd (omega (arith, e, sent_size, length-take 5 sent.0)))
