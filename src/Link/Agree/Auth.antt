-- ===== src/Link/Agree/Auth.antt =====
-- The registration of a game server is parsed back.
use l2go.Prelude.{
  ℕ, ◌%◌, ◌^◌, ◌≡◌, refl, Bool, false, not, ◌==◌, some, List, ◌∷◌, arith, length, ltb,
  if◌then◌else◌,
}
use l2go.Packet.Cursor.{length-le_bytes}
use l2go.Packet.Fields.{Field, half, blob}
use l2go.Packet.RoundTrip.{field_bytes}
use l2go.Link.Outls.{byte_of, dword_of, flag, host_fields, auth_request_fields}
use l2go.Link.Outls
use l2go.Link.Ings.{new_auth_request}
use l2go.Link.Agree.{Fits, paired_hosts}
use l2go.Link.Agree.Reads.{
  left, length-left, read_uint8-left, read_uint16-left, read_uint32-left, read_bytes-left,
}
use l2go.Link.Agree.Parses.{nonempty, read_hosts-left, length-dword}

flag_lem : (b : Bool) → not ((if b then 1 else 0) == 0) ≡ b
flag_lem b = ground arith

length-half : (v : ℕ) → length (field_bytes (half v)) ≡ 2
unfolding field_bytes
length-half v = length-le_bytes 2 v

module _ (ar : Outls.AuthRequest) (rest : List ℕ) (h : Fits (Outls.auth_request ar)) where
  -- What is left after each read.
  abbrev hs : List Field
  hs = host_fields ar.subnets ar.hosts

  abbrev f8 : List Field
  f8 = dword_of (length ar.subnets) ∷ hs

  abbrev f7 : List Field
  f7 = blob ar.hex_id ∷ f8

  abbrev f6 : List Field
  f6 = dword_of (length ar.hex_id) ∷ f7

  abbrev f5 : List Field
  f5 = dword_of ar.max_players ∷ f6

  abbrev f4 : List Field
  f4 = half (ar.port % 2 ^ 16) ∷ f5

  abbrev f3 : List Field
  f3 = flag ar.reserve_host ∷ f4

  abbrev f2 : List Field
  f2 = flag ar.accept_alternate_id ∷ f3

  abbrev f1 : List Field
  f1 = byte_of ar.desired_id ∷ f2

  abbrev f0 : List Field
  f0 = byte_of ar.version ∷ f1

  long_enough : ltb (length (left f0 rest)) 10 ≡ false
  unfolding field_bytes
  long_enough = ground (
    arith,
    length-left f1 rest (byte_of ar.version),
    length-left f2 rest (byte_of ar.desired_id),
    length-left f3 rest (flag ar.accept_alternate_id),
    length-left f4 rest (flag ar.reserve_host),
    length-left f5 rest (half (ar.port % 2 ^ 16)),
    length-left f6 rest (dword_of ar.max_players),
    length-half (ar.port % 2 ^ 16),
    length-dword (ar.max_players % 2 ^ 32),
  )

  pub auth_request-parses :
      new_auth_request (left (auth_request_fields ar) rest)
      ≡ some (record {
        version = ar.version % 2 ^ 8;
        id = ar.desired_id % 2 ^ 8;
        accept_alternate = ar.accept_alternate_id;
        reserve_host = ar.reserve_host;
        port = ar.port % 2 ^ 16;
        max_players = ar.max_players % 2 ^ 32;
        hex_id = ar.hex_id;
        subnets = ar.subnets;
        hosts = paired_hosts ar.subnets ar.hosts;
      })
  unfolding new_auth_request auth_request_fields
  auth_request-parses =
      let hex_size : length ar.hex_id % 2 ^ 32 ≡ length ar.hex_id = omega (arith, h.1) in
      let subnet_size : length ar.subnets % 2 ^ 32 ≡ length ar.subnets = omega (arith, h.2) in
      rw
        (
          long_enough,
          read_uint8-left f1 rest (ar.version % 2 ^ 8),
          read_uint8-left f2 rest (ar.desired_id % 2 ^ 8),
          read_uint8-left f3 rest (if ar.accept_alternate_id then 1 else 0),
          read_uint8-left f4 rest (if ar.reserve_host then 1 else 0),
          read_uint16-left f5 rest (ar.port % 2 ^ 16) (omega arith),
          read_uint32-left f6 rest (ar.max_players % 2 ^ 32) (omega arith),
          read_uint32-left f7 rest (length ar.hex_id % 2 ^ 32) (omega arith),
          hex_size,
          read_bytes-left f8 rest ar.hex_id,
          nonempty ar.hex_id h.0,
          read_uint32-left hs rest (length ar.subnets % 2 ^ 32) (omega arith),
          subnet_size,
          read_hosts-left ar.subnets ar.hosts rest h.3 h.4,
          flag_lem ar.accept_alternate_id,
          flag_lem ar.reserve_host,
        )
        refl
