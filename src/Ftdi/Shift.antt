-- ===== src/Ftdi/Shift.antt =====
-- `shift_chunks` of xvc-server-usb/src/ftdi_device.rs, to the filling of a builder; Chunks has the rest.
pub mod Chunks
pub mod Pins
pub mod Tms
pub mod Carried
pub mod Tdi
pub mod Tail
pub mod Tallied
pub mod Send
pub mod Clocks
pub mod Round
pub mod Fill
pub mod Reply
pub mod Got
pub mod Receive
pub mod Exchange
pub mod Total
pub mod Trace
pub mod Sizes
use Prim.Native.Nat.{bit_or}
use xvc_rs.Prelude.{
  ℕ, zero, suc, ◌+◌, ◌-◌, ◌*◌, ◌/◌, ◌%◌, ◌^◌, ◌≡◌, Bool, true, false, ◌&&◌, not, ◌==◌,
  if◌then◌else◌, ltb, leb, Option, some, none, List, [], ◌∷◌, ◌++◌, Bytes, Outcome, ok, err, panic,
  ◌>>=◌, ◌>>◌, assert, length, index, slice_to, replicate, div_ceil,
}
use xvc_rs.Ftdi.Bits.{is_set, same}
use xvc_rs.Ftdi.Bits.Vector.{Place, step, pin, or_at, clear_at}
use xvc_rs.Ftdi.Usb
use xvc_rs.Ftdi.Usb.{Pipes}

-- A call on the `MpsseCmdBuilder` of the crate ftdi_mpsse, with what it is given: TMS bits, the TDI
-- pin and a count; TDI bytes; TDI bits and a count.
pub data Call : Type 0 where
  clock_tms : ℕ → Bool → ℕ → Call
  clock_data : Bytes → Call
  clock_bits : ℕ → ℕ → Call
  send_immediate : Call

-- A builder is the list of the calls made on it. `as_slice` gives their bytes: a command's opcode
-- and its arguments, of the sizes in FTDI's application note AN 108.
pub record Mpsse : Type 0 where
  pub as_slice : List Call → Bytes
  pub length-as_slice-nil : length (as_slice []) ≡ 0
  pub length-clock_tms :
      (calls : List Call) (bits : ℕ) (tdi : Bool) (n : ℕ)
      → length (as_slice (calls ++ clock_tms bits tdi n ∷ [])) ≡ length (as_slice calls) + 3
  pub length-clock_data :
      (calls : List Call) (values : Bytes)
      → length (as_slice (calls ++ clock_data values ∷ []))
        ≡ length (as_slice calls) + 3 + length values
  pub length-clock_bits :
      (calls : List Call) (bits n : ℕ)
      → length (as_slice (calls ++ clock_bits bits n ∷ [])) ≡ length (as_slice calls) + 3

-- `a - b` with the check for an overflow.
abbrev pub checked_sub {ℓ} : {E : Type ℓ} → ℕ → ℕ → Outcome E ℕ
checked_sub a b = if ltb a b then panic else ok (a - b)

-- What the first inner loop leaves: `tms_bits`, its last `tms_bit`, `cmd_bitcount`, and the place.
pub record Stash : Type 0 where
  pub tms_bits : ℕ
  pub tms_bit : ℕ
  pub count : ℕ
  pub place : Place

-- The variables of the second inner loop.
pub record Run : Type 0 where
  pub left : ℕ
  pub place : Place
  pub count : ℕ
  pub mask : ℕ
  pub cmd_index : ℕ
  pub buf : Bytes

-- The variables of the loop that fills a builder.
pub record Chunk : Type 0 where
  pub calls : List Call
  pub bitcounts : List ℕ
  pub wanted : ℕ
  pub left : ℕ
  pub place : Place

module _ {E : Type 0} (mpsse : Mpsse) (out_size : ℕ) (tms tdi : Bytes) where
  open mpsse use {as_slice}

  -- `(cmd_bitcount < 6) && (cmd_bitcount < num_bits) && (tdi state == tdi_first_state)`
  unfoldable pub stash_more : Bool → ℕ → ℕ → Place → Outcome E Bool
  stash_more first left count place =
      if ltb count 6 && ltb count left then (pin tdi place >>= λ t. ok (same t first)) else ok false

  -- The loop that stashes TMS bits, with `cmd_bit`, `tms_bits` and `cmd_bitcount`. It takes 6 rounds
  -- at most.
  unfoldable pub stash_tms : ℕ → Bool → ℕ → Place → ℕ → ℕ → ℕ → Outcome E Stash
  unfolding stash_more
  stash_tms zero first left place cmd_bit tms_bits count = panic
  stash_tms (suc fuel) first left place cmd_bit tms_bits count = do
    t ← pin tms place
    let tms_bit = if t then cmd_bit else 0
    more ← stash_more first left (count + 1) (step place)
    let rest =
        stash_tms fuel first left (step place) (cmd_bit * 2 % 256) (bit_or tms_bits tms_bit)
          (count + 1)
    let stash : Stash = record {
      tms_bits = bit_or tms_bits tms_bit;
      tms_bit = tms_bit;
      count = count + 1;
      place = step place;
    }
    if more then rest else ok stash

  -- The TMS command, and `tms_state`.
  unfoldable pub send_tms : Chunk → Outcome E (Chunk × Bool)
  unfolding stash_tms
  send_tms c = do
    first ← pin tdi c.place
    s ← stash_tms 6 first c.left c.place 1 0 0
    let tms_bits = bit_or s.tms_bits (s.tms_bit * 2 % 256)
    left ← checked_sub c.left s.count
    ok (
      record {
        calls = c.calls ++ clock_tms tms_bits first s.count ∷ [];
        bitcounts = c.bitcounts ++ s.count ∷ [];
        wanted = c.wanted + 1;
        left = left;
        place = s.place;
      },
      not (s.tms_bit == 0),
    )

  -- `((builder.as_slice().len() + (cmd_bitcount as usize / 8)) as u16) < (request_size - reserve)`
  unfoldable pub room : List Call → ℕ → ℕ → Outcome E Bool
  room calls count reserve = do
    limit ← checked_sub out_size reserve
    ok (ltb ((length (as_slice calls) + count / 8) % 2 ^ 16) limit)

  -- The condition of the loop that stashes TDI bits.
  unfoldable pub run_more : List Call → Bool → Run → Outcome E Bool
  unfolding room
  run_more calls state r =
      if r.left == 0
      then ok false
      else (pin tms r.place >>= λ t. if same t state then room calls r.count 5 else ok false)

  -- Its body: the mask, and behind it the index in `buf`.
  unfoldable pub run_bit : Run → Outcome E Run
  run_bit r = do
    t ← pin tdi r.place
    buf ← if t then or_at r.buf r.cmd_index r.mask else ok r.buf
    let wraps = r.mask == 0x80
    buf' ← if wraps then clear_at buf (r.cmd_index + 1) else ok buf
    ok (record {
      left = r.left - 1;
      place = step r.place;
      count = r.count + 1;
      mask = if wraps then 1 else r.mask * 2 % 256;
      cmd_index = if wraps then r.cmd_index + 1 else r.cmd_index;
      buf = buf';
    })

  -- The loop; a round takes a bit, so `num_bits` is fuel enough.
  unfoldable pub stash_tdi : ℕ → List Call → Bool → Run → Outcome E Run
  unfolding run_more run_bit
  stash_tdi zero calls state r = do more ← run_more calls state r; if more then panic else ok r
  stash_tdi (suc fuel) calls state r = do
    more ← run_more calls state r
    let rest = run_bit r >>= stash_tdi fuel calls state
    if more then rest else ok r

  -- `if cmd_bitcount >= 8`
  unfoldable pub send_bytes : Chunk → ℕ → Bytes → Outcome E Chunk
  send_bytes c count buf =
      if leb 8 count
      then (slice_to (count / 8) buf >>= λ values.
          ok
            (record c { calls = c.calls ++ clock_data values ∷ []; wanted = c.wanted + count / 8 }))
      else ok c

  -- `if cmd_bitcount != 0`, with what is left of it behind the bytes.
  unfoldable pub send_rest : Chunk → ℕ → Bytes → Outcome E Chunk
  send_rest c count buf =
      if count % 8 == 0
      then ok c
      else (index buf (count / 8) >>= λ b.
          ok (record c { calls = c.calls ++ clock_bits b (count % 8) ∷ []; wanted = c.wanted + 1 }))

  -- `if cmd_bitcount > 0`
  unfoldable pub send_tdi : Chunk → Run → Outcome E Chunk
  unfolding send_bytes send_rest
  send_tdi c r =
      let c' = record c { left = r.left; place = r.place } in
      if r.count == 0
      then ok c'
      else (send_bytes (record c' { bitcounts = c.bitcounts ++ r.count ∷ [] }) r.count r.buf
          >>= λ c''. send_rest c'' r.count r.buf)

  -- One round of the loop that fills a builder, with its condition: `cmd_bitcount` is by then what
  -- was left of it behind the bytes.
  unfoldable pub round : Chunk → Outcome E (Chunk × Bool)
  unfolding send_tms stash_tdi send_tdi room
  round c = do
    (c₁, state) ← send_tms c
    buf ← clear_at (replicate out_size 0) 0
    r ←
        stash_tdi c₁.left c₁.calls state (record {
          left = c₁.left;
          place = c₁.place;
          count = 0;
          mask = 1;
          cmd_index = 0;
          buf = buf;
        })
    c₂ ← send_tdi c₁ r
    more ← if c₂.left == 0 then ok false else room c₂.calls (r.count % 8) 6
    ok (c₂, more)

  -- The loop. A round takes a bit, so that `num_bits` is fuel enough.
  unfoldable pub fill : ℕ → Chunk → Outcome E Chunk
  unfolding round
  fill zero c = panic
  fill (suc fuel) c = do (c', more) ← round c; let rest = fill fuel c'; if more then rest else ok c'
