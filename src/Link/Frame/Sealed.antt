-- ===== src/Link/Frame/Sealed.antt =====
-- A packet, sealed: padded, with its checksum, and encrypted.
use l2go.Prelude.{
  ℕ, zero, suc, ◌+◌, ◌-◌, ◌%◌, ◌≤◌, ◌<◌, ◌≡◌, refl, ap₂, ◌∙◌, inl, inr, true, Bool-cases, some,
  List, [], ◌∷◌, ◌++◌, ◌==◌, arith, All, length, drop, get_or, replicate, length-append,
  length-replicate,
}
use mathlib.Core.List.{append-nil}
use l2go.Crypt.Words.{All-IsBytes}
use l2go.Crypt.Checksum.{verify_checksum, append_checksum}
use l2go.Crypt.Checksum.Loop.{IsPacket}
use l2go.Crypt.Checksum.Laws.{verify-append_checksum}
use l2go.Link.Frame.{pad_packet}

-- A list that agrees with a shorter one starts with it.
prefix_of :
    (xs ys : List ℕ)
    → length xs ≤ length ys
    → ((j : ℕ) → j < length xs → get_or ys j 0 ≡ get_or xs j 0)
    → ys ≡ xs ++ drop (length xs) ys
prefix_of [] ys l h = refl
prefix_of (x ∷ xs) [] l h = absurd (omega arith)
prefix_of (x ∷ xs) (y ∷ ys) l h =
    let tail = prefix_of xs ys (omega arith) (λ j lt. h (suc j) (omega arith)) in
    let head : y ≡ x = h 0 (omega arith) in ap₂ ◌∷◌ head tail

get_or-append : (xs ys : List ℕ) (j : ℕ) → j < length xs → get_or (xs ++ ys) j 0 ≡ get_or xs j 0
get_or-append [] ys j h = absurd (omega arith)
get_or-append (x ∷ xs) ys zero h = refl
get_or-append (x ∷ xs) ys (suc j) h = get_or-append xs ys j (omega arith)

All-append :
    (xs ys : List ℕ) → All (λ b. b < 256) xs → All (λ b. b < 256) ys → All (λ b. b < 256) (xs ++ ys)
All-append [] ys h k = k
All-append (x ∷ xs) ys h k = (h.0, All-append xs ys h.1 k)

All-zeros : (n : ℕ) → All (λ b. b < 256) (replicate n 0)
All-zeros zero = tt
All-zeros (suc n) = (omega arith, All-zeros n)

-- What pad_packet appends, by the length.
pad_packet-eq :
    (packet : List ℕ)
    → (n : ℕ) × (pad_packet packet ≡ (packet ++ replicate 4 0) ++ replicate n 0)
      × ((length packet + 4 + n) % 8 ≡ 0)
      × (n < 8)
unfolding pad_packet
pad_packet-eq packet =
    let roomy = packet ++ replicate 4 0 in
    let size : length roomy ≡ length packet + 4 = length-append packet (replicate 4 0) in
    elim (Bool-cases (length roomy % 8 == 0)) [
      | inl whole ↦ (0, rw (whole, append-nil) refl, ground (arith, size), omega arith)
      | inr ragged ↦
          (8 - length roomy % 8, rw ragged refl, ground (arith, size), ground (arith, size))
    ]

-- What is known of a packet that was padded and given its checksum.
pub record IsSealed (packet out : List ℕ) : Type 0 where
  pub made : append_checksum (pad_packet packet) ≡ some out
  pub verified : verify_checksum out ≡ some true
  pub starts : out ≡ packet ++ drop (length packet) out
  pub whole : length out % 8 ≡ 0
  pub room : length packet + 4 ≤ length out
  pub tight : length out < length packet + 12

pub sealed :
    (packet : List ℕ)
    → 1 ≤ length packet
    → All (λ b. b < 256) packet
    → (out : List ℕ) × IsSealed packet out
sealed packet long bytes =
    let (n, eq, whole, small) = pad_packet-eq packet in
    let zeros : List ℕ = replicate n 0 in
    let padded = (packet ++ replicate 4 0) ++ zeros in
    let size : length padded ≡ length packet + 4 + n = omega (
      arith,
      length-append packet (replicate 4 0),
      length-append (packet ++ replicate 4 0) zeros,
      length-replicate {A = ℕ} n 0,
    ) in
    let is_packet : IsPacket padded = record {
      whole = omega (arith, whole, size);
      long = omega (arith, size);
      bytes = All-IsBytes padded (
          All-append (packet ++ replicate 4 0) zeros
            (All-append packet (replicate 4 0) bytes (All-zeros 4)) (All-zeros n));
    } in
    let (out, made, verified, length_out, same) = verify-append_checksum padded is_packet in
    let agrees = λ (j : ℕ) (lt : j < length packet).
      same j (omega (arith, size))
      ∙ get_or-append (packet ++ replicate 4 0) zeros j
          (omega (arith, length-append packet (replicate 4 0)))
      ∙ get_or-append packet (replicate 4 0) j lt in
    (
      out,
      record {
        made = rw eq made;
        verified = verified;
        starts = prefix_of packet out (omega (arith, size, length_out)) agrees;
        whole = omega (arith, whole, size, length_out);
        room = omega (arith, size, length_out);
        tight = omega (arith, size, length_out);
      },
    )
