-- ===== src/Link/Frame/Laws.antt =====
-- A packet sent at one end is received at the other.
use l2go.Prelude.{
  ℕ, zero, suc, ◌+◌, ◌-◌, ◌*◌, ◌^◌, ◌≤◌, ◌<◌, ◌≡◌, ◌≢◌, refl, sym, ap, ◌∙◌, inl, inr, true, false,
  Option, none, some, List, [], ◌∷◌, ◌++◌, All, ltb, leb, ◌==◌, arith, length, take, drop, get_or,
  length-append, length-drop, Bool-cases, leb→le,
}
use mathlib.Core.List.{append_assoc}
use l2go.Packet.{le_bytes, le_value}
use l2go.Packet.Cursor.{length-le_bytes, le_value-le_bytes}
use l2go.Crypt.Blocks.{BlockCipher, Result, blowfish_decrypt, blowfish_decrypt_game_server}
use l2go.Link.Frame.{
  new_login_server_connection, set_blowfish_key, Socket, login_server_connection_send,
  game_server_send, split_opcode, game_server_receive, login_server_connection_receive,
}
use l2go.Link.Frame.Socket.{
  stream, IsLive, read_full-stream, read_once-first, read_once-part, read_once-short, cut,
}
use l2go.Link.Frame.Wire.{
  game_end, login_end, key_of, IsKey, IsWire, game_end_sends, login_end_sends,
}

header_size : (v : ℕ) → v < 2 ^ 16 → get_or (le_bytes 2 v) 0 0 + get_or (le_bytes 2 v) 1 0 * 256 ≡ v
unfolding le_bytes
header_size v h = omega arith

take-prefix :
    (n : ℕ) (xs ys : List ℕ) → length xs ≤ n → take n (xs ++ ys) ≡ xs ++ take (n - length xs) ys
take-prefix n [] ys h = ap (λ k. take k ys) (omega arith)
take-prefix zero (x ∷ xs) ys h = absurd (omega arith)
take-prefix (suc n) (x ∷ xs) ys h =
    let same : n - length xs ≡ suc n - suc (length xs) = omega arith in
    ap (◌∷◌ x) (take-prefix n xs ys (omega arith) ∙ ap (λ k. xs ++ take k ys) same)

split-starts :
    (plain : List ℕ) (op : ℕ) (rest padding : List ℕ) (s : Socket)
    → plain ≡ (op ∷ rest) ++ padding
    → split_opcode plain s ≡ some (op, rest ++ padding, s)
unfolding split_opcode
split-starts plain op rest padding s e = rw e refl

module _ (b : BlockCipher) where
  decrypts_login :
      (k : Option (List ℕ)) (bytes : List ℕ)
      → elim k as (λ x. Result) [
        | some key ↦ blowfish_decrypt b bytes key
        | none ↦ blowfish_decrypt_game_server b bytes
      ]
        ≡ blowfish_decrypt b bytes (key_of k)
  unfolding blowfish_decrypt_game_server
  decrypts_login none bytes = refl
  decrypts_login (some key) bytes = refl

  game_end_key : (k : Option (List ℕ)) → (game_end k).blowfish_key ≡ key_of k
  unfolding new_login_server_connection set_blowfish_key
  game_end_key none = refl
  game_end_key (some key) = refl

  -- The login server's end receives a wire that comes in one portion.
  pub login_end_receives :
      (k : Option (List ℕ)) (op : ℕ) (rest wire more : List ℕ) (cs : Socket)
      → IsWire b k (op ∷ rest) wire
      → (padding : List ℕ) × (s' : Socket) × (game_server_receive b
            (login_end k)
            ((wire ++ more) ∷ cs)
          ≡ some (op, rest ++ padding, s'))
        × (stream s' ≡ more ++ stream cs)
  unfolding game_server_receive
  login_end_receives k op rest wire more cs w =
      let n = length w.encrypted in
      let header = le_bytes 2 (n + 2) in
      let long : 1 ≤ n = omega (arith, w.size, w.is_sealed.room) in
      let ex : wire ++ more ≡ header ++ (w.encrypted ++ more) =
        ap (λ t. t ++ more) w.is_framed ∙ append_assoc header w.encrypted more in
      let first =
        read_once-part 2 header (w.encrypted ++ more) cs (omega arith) (length-le_bytes 2 (n + 2))
          (omega (arith, length-append w.encrypted more)) in
      let (s2, second, after) = read_once-first n w.encrypted more cs long refl in
      let size = header_size (n + 2) w.fits in
      let large : ltb (n + 2) 2 ≡ false = ground arith in
      let bytes : n + 2 - 2 ≡ n = omega arith in
      let complete : (n == n) ≡ true = ground arith in
      let padding = drop (length (op ∷ rest)) w.plain in
      (
        padding,
        s2,
        rw
            (
              ex,
              first,
              length-le_bytes 2 (n + 2),
              size,
              large,
              bytes,
              second,
              complete,
              decrypts_login k w.encrypted,
              w.decrypts,
              w.is_sealed.verified,
            )
            (split-starts w.plain op rest padding s2 w.is_sealed.starts),
        after,
      )

  game_end_receives :
      (k : Option (List ℕ)) (op : ℕ) (rest wire more : List ℕ) (s : Socket)
      → IsWire b k (op ∷ rest) wire
      → IsLive s
      → stream s ≡ wire ++ more
      → (padding : List ℕ) × (s' : Socket) × (login_server_connection_receive b (game_end k) s
          ≡ some (op, rest ++ padding, s'))
        × (stream s' ≡ more)
  unfolding login_server_connection_receive
  game_end_receives k op rest wire more s w live e =
      let n = length w.encrypted in
      let header = le_bytes 2 (n + 2) in
      let ex : stream s ≡ header ++ (w.encrypted ++ more) =
        e ∙ ap (λ t. t ++ more) w.is_framed ∙ append_assoc header w.encrypted more in
      let (s1, first, after, live1) =
        read_full-stream 3 2 [] header (w.encrypted ++ more) s live ex
          (omega (arith, length-le_bytes 2 (n + 2))) (omega arith) in
      let (s2, second, end, live2) =
        read_full-stream (n + 1) n [] w.encrypted more s1 live1 after (omega arith) (omega arith) in
      let size : le_value header ≡ n + 2 = le_value-le_bytes 2 (n + 2) w.fits in
      let total : ltb (n + 2) 7 ≡ false = ground (arith, w.size, w.is_sealed.room) in
      let rounds : n + 2 - 1 ≡ n + 1 = omega arith in
      let bytes : n + 2 - 2 ≡ n = omega arith in
      let padding =
        take (length w.plain - 4 - length (op ∷ rest)) (drop (length (op ∷ rest)) w.plain) in
      let stripped : take (length w.plain - 4) w.plain ≡ (op ∷ rest) ++ padding =
        ap (take (length w.plain - 4)) w.is_sealed.starts
        ∙ take-prefix (length w.plain - 4) (op ∷ rest) (drop (length (op ∷ rest)) w.plain)
            (omega (arith, w.is_sealed.room)) in
      (
        padding,
        s2,
        rw
            (
              first,
              size,
              total,
              rounds,
              bytes,
              second,
              game_end_key k,
              w.decrypts,
              w.is_sealed.verified,
            )
            (split-starts _ op rest padding s2 stripped),
        end,
      )

  -- Before and after the exchange of keys, a packet that the login server sends is received by the
  -- game server, its opcode and its bytes with some padding after them, in whatever portions a network
  -- that loses and changes nothing hands the bytes over; what follows stays to be read. The packet is
  -- short enough for the two bytes of its length, its bytes are bytes, and the key is one that the
  -- cipher takes.
  pub login_server_connection_receive-game_server_send :
      (network : List ℕ → Socket) (more : List ℕ) (k : Option (List ℕ)) (op : ℕ) (rest : List ℕ)
      → ((w : List ℕ) → IsLive (network w) × (stream (network w) ≡ w ++ more))
      → IsKey k
      → length (op ∷ rest) < 65522
      → All (λ x. x < 256) (op ∷ rest)
      → (wire : List ℕ) × (padding : List ℕ) × (s' : Socket) × (game_server_send b
            (login_end k)
            (op ∷ rest)
          ≡ some wire)
        × (login_server_connection_receive b (game_end k) (network wire)
            ≡ some (op, rest ++ padding, s'))
        × (stream s' ≡ more)
  login_server_connection_receive-game_server_send network more k op rest carried ik short bytes =
      let (wire, sent, w) = login_end_sends b k (op ∷ rest) ik (omega arith) short bytes in
      let (live, e) = carried wire in
      let (padding, s', received, after) =
        game_end_receives k op rest wire more (network wire) w live e in
      (wire, padding, s', sent, received, after)

  cut_in_header_or_data :
      (k : Option (List ℕ)) (op : ℕ) (rest wire first second : List ℕ) (cs : Socket)
      → IsWire b k (op ∷ rest) wire
      → wire ≡ first ++ second
      → 1 ≤ length first
      → 1 ≤ length second
      → length first ≢ 2
      → game_server_receive b (login_end k) (first ∷ second ∷ cs) ≡ none
  unfolding game_server_receive
  cut_in_header_or_data k op rest wire first second cs w e some_first some_second apart =
      elim (Bool-cases (leb (length first) 2)) [
        | inl short ↦
            let one : (length first == 2) ≡ false = ground arith in
            rw (read_once-short 2 first (second ∷ cs) (omega arith) (leb→le _ _ short), one) refl
        | inr long ↦
            let n = length w.encrypted in
            let header = le_bytes 2 (n + 2) in
            let mid = drop 2 first in
            let two = length-le_bytes 2 (n + 2) in
            let (same, others) =
              cut header w.encrypted first second (sym w.is_framed ∙ e) (ground (arith, two)) in
            let same' : first ≡ header ++ mid = same ∙ ap (λ k. header ++ drop k first) two in
            let others' : w.encrypted ≡ mid ++ second =
              others ∙ ap (λ k. drop k first ++ second) two in
            let inside : 1 ≤ length mid = ground (arith, length-drop 2 first) in
            let fewer : length mid < n =
              omega (arith, ap length others', length-append mid second) in
            let large : ltb (n + 2) 2 ≡ false = ground arith in
            let bytes : n + 2 - 2 ≡ n = omega arith in
            let incomplete : (length mid == n) ≡ false = ground arith in
            ap (λ c. game_server_receive b (login_end k) (c ∷ second ∷ cs)) same'
            ∙ rw
                (
                  read_once-part 2 header mid (second ∷ cs) (omega arith)
                      (length-le_bytes 2 (n + 2)) inside,
                  length-le_bytes 2 (n + 2),
                  header_size (n + 2) w.fits,
                  large,
                  bytes,
                  read_once-short n mid (second ∷ cs) (omega arith) (omega arith),
                  incomplete,
                )
                refl
      ]

  -- The login server's end reads once for the header and once for the rest: when the first portion of
  -- a frame ends anywhere but after the header, it is refused.
  pub game_server_receive_cut :
      (k : Option (List ℕ)) (op : ℕ) (rest wire first second : List ℕ) (cs : Socket)
      → IsKey k
      → length (op ∷ rest) < 65522
      → All (λ x. x < 256) (op ∷ rest)
      → login_server_connection_send b (game_end k) (op ∷ rest) ≡ some wire
      → wire ≡ first ++ second
      → 1 ≤ length first
      → 1 ≤ length second
      → length first ≢ 2
      → game_server_receive b (login_end k) (first ∷ second ∷ cs) ≡ none
  unfolding game_server_receive
  game_server_receive_cut k op rest wire first second cs ik short bytes sent e some_first
        some_second apart =
      let (wire', sent', w) = game_end_sends b k (op ∷ rest) ik (omega arith) short bytes in
      let same : wire' ≡ wire = cc in
      cut_in_header_or_data k op rest wire' first second cs w (same ∙ e) some_first some_second
        apart
