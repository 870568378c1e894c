-- ===== src/Link/Agree/Parses.antt =====
-- Each packet is parsed back, whatever padding follows it.
use l2go.Prelude.{
  ℕ, zero, suc, ◌%◌, ◌^◌, ◌≤◌, ◌≡◌, ◌≢◌, refl, false, some, List, [], ◌∷◌, All, arith, length,
  replicate, length-append, ltb,
}
use l2go.Prelude.Nested.{is_empty}
use l2go.Packet.{le_bytes}
use l2go.Packet.Utf16.{encode}
use l2go.Packet.Cursor.{length-le_bytes}
use l2go.Packet.Units.{units_bytes}
use l2go.Packet.Fields.{dword, qword, text}
use l2go.Packet.RoundTrip.{field_bytes}
use l2go.Link.Outls.{
  host_fields, auth_request_fields, player_auth_request_fields, reply_characters_fields, fields,
  opcode, get_data,
}
use l2go.Link.Outls
use l2go.Link.Ings.{
  read_hosts, new_player_auth_request, new_player_logout, new_player_tracert, new_reply_characters,
  read_times,
}
use l2go.Link.Agree.{IsText, Fits, paired_hosts}
use l2go.Link.Agree.Reads.{
  left, length-left, read_uint8-left, read_uint32-left, read_uint64-left, read_string-left,
}

length-text : (s : List ℕ) → 2 ≤ length (field_bytes (text s))
unfolding field_bytes
length-text s =
    omega (arith, length-append (units_bytes (encode s)) (le_bytes 2 0), length-le_bytes 2 0)

pub length-dword : (v : ℕ) → length (field_bytes (dword v)) ≡ 4
unfolding field_bytes
length-dword v = length-le_bytes 4 v

pub player_logout-parses :
    (account rest : List ℕ)
    → IsText account
    → new_player_logout (left (text account ∷ []) rest) ≡ some account
unfolding new_player_logout
player_logout-parses account rest h = ground (
  arith,
  length-left [] rest (text account),
  length-text account,
  read_string-left [] rest account h,
)

pub player_auth_request-parses :
    (account : List ℕ) (key : Outls.SessionKey) (rest : List ℕ)
    → Fits (Outls.player_auth_request account key)
    → new_player_auth_request (left (player_auth_request_fields account key) rest)
      ≡ some (record {
        account = account;
        play_key1 = key.play_ok_id1;
        play_key2 = key.play_ok_id2;
        login_key1 = key.login_ok_id1;
        login_key2 = key.login_ok_id2;
      })
unfolding new_player_auth_request player_auth_request_fields
player_auth_request-parses account key rest h =
    let d4 = dword key.login_ok_id2 ∷ [] in
    let d3 = dword key.login_ok_id1 ∷ d4 in
    let d2 = dword key.play_ok_id2 ∷ d3 in
    let d1 = dword key.play_ok_id1 ∷ d2 in
    let long : ltb (length (left (text account ∷ d1) rest)) 18 ≡ false = ground (
      arith,
      length-text account,
      length-left d1 rest (text account),
      length-left d2 rest (dword key.play_ok_id1),
      length-left d3 rest (dword key.play_ok_id2),
      length-left d4 rest (dword key.login_ok_id1),
      length-left [] rest (dword key.login_ok_id2),
      length-dword key.play_ok_id1,
      length-dword key.play_ok_id2,
      length-dword key.login_ok_id1,
      length-dword key.login_ok_id2,
    ) in
    rw
      (
        long,
        read_string-left d1 rest account h.0,
        read_uint32-left d2 rest key.play_ok_id1 h.1,
        read_uint32-left d3 rest key.play_ok_id2 h.2,
        read_uint32-left d4 rest key.login_ok_id1 h.3,
        read_uint32-left [] rest key.login_ok_id2 h.4,
      )
      refl

pub player_tracert-parses :
    (account pc_ip hop1 hop2 hop3 hop4 rest : List ℕ)
    → Fits (Outls.player_tracert account pc_ip hop1 hop2 hop3 hop4)
    → new_player_tracert
        (left (text account ∷ text pc_ip ∷ text hop1 ∷ text hop2 ∷ text hop3 ∷ text hop4 ∷ []) rest)
      ≡ some (record {
        account = account;
        pc_ip = pc_ip;
        hop1 = hop1;
        hop2 = hop2;
        hop3 = hop3;
        hop4 = hop4;
      })
unfolding new_player_tracert
player_tracert-parses account pc_ip hop1 hop2 hop3 hop4 rest h =
    let t4 = text hop4 ∷ [] in
    let t3 = text hop3 ∷ t4 in
    let t2 = text hop2 ∷ t3 in
    let t1 = text hop1 ∷ t2 in
    let t0 = text pc_ip ∷ t1 in
    let long : ltb (length (left (text account ∷ t0) rest)) 2 ≡ false =
      ground (arith, length-text account, length-left t0 rest (text account)) in
    rw
      (
        long,
        read_string-left t0 rest account h.0,
        read_string-left t1 rest pc_ip h.1,
        read_string-left t2 rest hop1 h.2,
        read_string-left t3 rest hop2 h.3,
        read_string-left t4 rest hop3 h.4,
        read_string-left [] rest hop4 h.5,
      )
      refl

read_times-left :
    (n : ℕ) (rest : List ℕ) → read_times n (left (replicate n (qword 0)) rest) ≡ replicate n 0
unfolding read_times
read_times-left zero rest = refl
read_times-left (suc n) rest =
    rw (read_uint64-left (replicate n (qword 0)) rest 0 (omega arith), read_times-left n rest) refl

pub nonempty : (s : List ℕ) → s ≢ [] → is_empty s ≡ false
nonempty [] h = absurd (h refl)
nonempty (x ∷ s) h = refl

pub reply_characters-parses :
    (account : List ℕ) (char_count chars_in_del : ℕ) (rest : List ℕ)
    → Fits (Outls.reply_characters account char_count chars_in_del)
    → new_reply_characters (left (reply_characters_fields account char_count chars_in_del) rest)
      ≡ some (record {
        account = account;
        character_count = char_count % 2 ^ 8;
        deletion_count = chars_in_del;
        deletion_times = replicate chars_in_del 0;
      })
unfolding new_reply_characters reply_characters_fields field_bytes
reply_characters-parses account char_count chars_in_del rest h =
    let times = replicate chars_in_del (qword 0) in
    let b2 = Outls.byte_of chars_in_del ∷ times in
    let b1 = Outls.byte_of char_count ∷ b2 in
    let small : chars_in_del % 2 ^ 8 ≡ chars_in_del = omega (arith, h.2) in
    let long : ltb (length (left (text account ∷ b1) rest)) 3 ≡ false = ground (
      arith,
      length-text account,
      length-left b1 rest (text account),
      length-left b2 rest (Outls.byte_of char_count),
    ) in
    rw
      (
        long,
        read_string-left b1 rest account h.0,
        nonempty account h.1,
        read_uint8-left b2 rest (char_count % 2 ^ 8),
        read_uint8-left times rest (chars_in_del % 2 ^ 8),
        small,
        read_times-left chars_in_del rest,
      )
      refl

pub read_hosts-left :
    (subnets hosts : List (List ℕ)) (rest : List ℕ)
    → All IsText subnets
    → All IsText hosts
    → read_hosts (length subnets) (left (host_fields subnets hosts) rest)
      ≡ (subnets, paired_hosts subnets hosts)
unfolding read_hosts host_fields paired_hosts
read_hosts-left [] hosts rest h k = refl
read_hosts-left (s ∷ subnets) [] rest h k =
    let more = host_fields subnets [] in
    rw
      (
        read_string-left (text [] ∷ more) rest s h.0,
        read_string-left more rest [] tt,
        read_hosts-left subnets [] rest h.1 k,
      )
      refl
read_hosts-left (s ∷ subnets) (t ∷ hosts) rest h k =
    let more = host_fields subnets hosts in
    rw
      (
        read_string-left (text t ∷ more) rest s h.0,
        read_string-left more rest t k.0,
        read_hosts-left subnets hosts rest h.1 k.1,
      )
      refl
