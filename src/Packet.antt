-- ===== src/Packet.antt =====
-- pkg/l2pkt: the cursor that packets are read with, the buffer that they are written to, and
-- BuildPacket and ParsePacket. Signed and floating-point values go by their bit patterns.
pub mod Utf16
pub mod Cursor
pub mod Units
pub mod Fields
pub mod RoundTrip
mod Tests
use l2go.Prelude.{
  ℕ, zero, suc, ◌+◌, ◌-◌, ◌*◌, ◌/◌, ◌%◌, ◌^◌, ◌≡◌, Bool, true, false, ◌||◌, Option, none, some,
  List, [], ◌∷◌, ◌++◌, ltb, leb, ◌==◌, if◌then◌else◌, length, take, drop, get_or,
}
use l2go.Prelude.Int.{ℤ, pos, negsuc}
use Utf16.{encode, decode}

-- binary.LittleEndian.
unfoldable pub le_bytes : ℕ → ℕ → List ℕ
le_bytes zero v = []
le_bytes (suc n) v = v % 2 ^ 8 ∷ le_bytes n (v / 2 ^ 8)

unfoldable pub le_value : List ℕ → ℕ
le_value [] = 0
le_value (b ∷ bs) = b + 2 ^ 8 * le_value bs

pub record Reader : Type 0 where
  pub buf : List ℕ
  pub off : ℕ

pub new_reader : List ℕ → Reader
new_reader b = record { buf = b; off = 0 }

pub reset_reader : Reader → List ℕ → Reader
reset_reader r b = record { buf = b; off = 0 }

pub has_remaining : Reader → Bool
has_remaining r = ltb r.off (length r.buf)

pub remaining : Reader → ℕ
remaining r = length r.buf - r.off

pub slice : Reader → List ℕ
slice r = drop r.off r.buf

-- A read returns the reader and the value, `none` for ErrUnderflow.
abbrev pub Read {ℓ} : Type ℓ → Type ℓ
Read A = Reader → Reader × Option A

-- The guard and the slice that the typed reads share.
pub read_bytes : ℕ → Read (List ℕ)
read_bytes n r =
    if ltb (length r.buf) (r.off + n)
    then (r, none)
    else (record r { off = r.off + n }, some (take n (drop r.off r.buf)))

abbrev pub on_value {ℓ κ} :
    {A : Type ℓ} {B : Type κ} → (A → B) → Reader × Option A → Reader × Option B
on_value f (r, none) = (r, none)
on_value f (r, some a) = (r, some (f a))

-- `ReadB(dst)`: what `dst` holds afterwards. Its length is all that is used of it.
pub read_b : ℕ → Read (List ℕ)
read_b n = read_bytes n

-- `dst` with `n` bytes of the buffer at `offset`. `n` is not negative.
pub read_b_into : List ℕ → ℤ → ℕ → Read (List ℕ)
read_b_into dst (negsuc k) n r = (r, none)
read_b_into dst (pos offset) n r =
    if ltb (length r.buf) (r.off + n) || ltb (length dst) (offset + n) then (r, none) else (
      record r { off = r.off + n },
      some (take offset dst ++ (take n (drop r.off r.buf) ++ drop (offset + n) dst)),
    )

pub read_c : Read ℕ
read_c r =
    if ltb (length r.buf) (r.off + 1)
    then (r, none)
    else (record r { off = r.off + 1 }, some (get_or r.buf r.off 0))

pub read_h : Read ℕ
read_h r = on_value le_value (read_bytes 2 r)

pub read_d : Read ℕ
read_d r = on_value le_value (read_bytes 4 r)

pub read_q : Read ℕ
read_q r = on_value le_value (read_bytes 8 r)

pub read_f : Read ℕ
read_f r = read_q r

-- The loop of ReadS, with the units read so far. Every round moves on, so the bytes that remain
-- are fuel enough; underflow leaves the reader where it ran out.
pub read_units : ℕ → List ℕ → Read (List ℕ)
read_units zero scratch r = (r, none)
read_units (suc fuel) scratch r =
    let next = record r { off = r.off + 2 } in
    let u = le_value (take 2 (drop r.off r.buf)) in
    let more = read_units fuel (scratch ++ u ∷ []) next in
    if ltb (length r.buf) (r.off + 2)
    then (r, none)
    else if u == 0
    then (next, some scratch)
    else more

-- A string is its code points.
pub read_s : Read (List ℕ)
read_s r = on_value decode (read_units (suc (remaining r)) [] r)

-- The writer is what it holds.
abbrev pub Writer : Type 0
Writer = List ℕ

abbrev pub new_writer : Writer
new_writer = []

pub write_b : Writer → List ℕ → Writer
write_b w b = w ++ b

pub write_c : Writer → ℕ → Writer
write_c w v = w ++ v ∷ []

pub write_h : Writer → ℕ → Writer
write_h w v = w ++ le_bytes 2 v

pub write_d : Writer → ℕ → Writer
write_d w v = w ++ le_bytes 4 v

pub write_q : Writer → ℕ → Writer
write_q w v = w ++ le_bytes 8 v

pub write_f : Writer → ℕ → Writer
write_f w v = write_q w v

pub write_units : Writer → List ℕ → Writer
write_units w [] = w
write_units w (cu ∷ units) = write_units (write_h w cu) units

pub write_s : Writer → List ℕ → Writer
write_s w s = write_h (write_units w (encode s)) 0

-- A sendable packet is its `Write`, a receivable one its `Read`, which says whether it succeeded.
pub build_packet : (Writer → Writer) → List ℕ
build_packet write = write new_writer

pub parse_packet : List ℕ → (Reader → Reader × Bool) → Bool
parse_packet payload read =
    let (r, done) = read (new_reader payload) in
    if done then if has_remaining r then false else true else false
