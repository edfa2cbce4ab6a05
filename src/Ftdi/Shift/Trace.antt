-- ===== src/Ftdi/Shift/Trace.antt =====
-- What has gone over the pins when `shift_chunks` has succeeded.
use xvc_rs.Prelude.{
  ℕ, ◌+◌, ◌<◌, ◌≡◌, Bool, List, [], ◌∷◌, ◌++◌, map, joined, Bytes, Outcome, ok, err, panic,
}
use xvc_rs.Ftdi.Bits.Vector.{bit}
use xvc_rs.Ftdi.Usb.{Pipes}
use xvc_rs.Ftdi.Usb.Read.{ReadEnd}
use xvc_rs.Ftdi.Shift.{Call, Mpsse}
use xvc_rs.Ftdi.Shift.Chunks.{Shifted}
use xvc_rs.Ftdi.Shift.Pins.{span, clocked_tdi, clocked_tms, replies, reply_counts}
use xvc_rs.Ftdi.Shift.Tallied.{reply_bytes}
use xvc_rs.Ftdi.Shift.Clocks.{Clocks}
use xvc_rs.Ftdi.Shift.Got.{Got}
use xvc_rs.Ftdi.Shift.Exchange.{command}

-- A chunk's calls, and the bytes that the device replied.
pub record Trip : Type 0 where
  pub calls : List Call
  pub rx : Bytes

-- The calls of several chunks, one chunk behind the other.
abbrev pub calls_of : List Trip → List Call
calls_of [] = []
calls_of (t ∷ trips) = t.calls ++ calls_of trips

-- The bits that reply to their calls.
abbrev pub replied : List Trip → List Bool
replied [] = []
replied (t ∷ trips) = replies t.rx 0 (reply_counts t.calls) ++ replied trips

module _ {H E : Type 0} (handle : Pipes H E) (mpsse : Mpsse) (out_size in_size : ℕ)
    (tms tdi : Bytes) (sent : H → Bytes) where
  abbrev pub commands : List Trip → Bytes
  commands trips =
      joined (map (λ t. command handle mpsse out_size in_size tms tdi sent t.calls) trips)

  -- Chunks one behind the other: the commands of each are sent, and then as many bytes are read as
  -- reply to its calls.
  pub data Exchanged : H → List Trip → H → Type 0 where
    nothing : (h : H) → Exchanged h [] h
    trip :
        (calls : List Call) (rx : Bytes) (trips : List Trip) (h h₁ h₂ h' : H)
        → sent h₁ ≡ sent h ++ command handle mpsse out_size in_size tms tdi sent calls
        → ReadEnd handle in_size (reply_bytes (reply_counts calls)) h₁ [] (ok rx, h₂)
        → Exchanged h₂ trips h'
        → Exchanged h (record { calls = calls; rx = rx } ∷ trips) h'

  -- The chunks clock the `n` bits from `p` on out, on both pins, and `tdo` has the bits of their
  -- replies behind `got`.
  abbrev pub Done : ℕ → ℕ → List Bool → H → ℕ → List Trip → H → Bytes → Type 0
  Done size p got h n trips h' tdo =
      Exchanged h trips h'
      × (clocked_tdi (calls_of trips) ≡ span (bit tdi) p n)
      × ((held : Bool) → clocked_tms held (calls_of trips) ≡ span (bit tms) p n)
      × Got size (p + n) (got ++ replied trips) tdo

  -- On success all of the `left` bits from `p` on are done, and only their commands are sent; at an
  -- error some are done, and it is one of the next chunk's. There is no panic.
  abbrev pub Whole : ℕ → ℕ → ℕ → List Bool → H → Shifted H E → Type 0
  Whole size left p got h (ok u, tdo', h') =
      (trips : List Trip) × (sent h' ≡ sent h ++ commands trips)
      × Done size p got h left trips h' tdo'
  Whole size left p got h (err e, tdo', h') =
      (n : ℕ) × (trips : List Trip) × (h₁ : H) × (n < left) × Done size p got h n trips h₁ tdo'
  Whole size left p got h (panic, tdo', h') = ⊥

  -- A bulk read sends nothing.
  abbrev pub Quiet : Type 0
  Quiet = (h h' : H) (r : Outcome E Bytes) → handle.read in_size h ≡ (r, h') → sent h' ≡ sent h
