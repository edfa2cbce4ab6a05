-- ===== src/Ftdi/Usb.antt =====
-- The bulk transfers of xvc-server-usb/src/ftdi_device.rs: `UsbHandle`, `write` and `read`.
pub mod Write
pub mod Packet
pub mod Read
use Prim.Native.Nat.{min}
use xvc_rs.Prelude.{
  ℕ, zero, suc, ◌+◌, ◌-◌, Option, some, none, List, [], ◌∷◌, ◌++◌, Bytes, Outcome, ok, err, panic,
  ltb, leb, if◌then◌else◌, length, take, drop, slice_from,
}

-- `UsbHandle`: a bulk write to an endpoint answers how many bytes it has taken, a bulk read from one
-- the bytes it has put at the start of the buffer, which has the length given; the last number is
-- the timeout.
pub record UsbHandle (H E : Type 0) : Type 0 where
  pub write : ℕ → Bytes → ℕ → H → Outcome E ℕ × H
  pub read : ℕ → ℕ → ℕ → H → Outcome E Bytes × H
  -- `rusb::Error::Timeout`
  pub timed_out : E

-- The two calls on the handle as `write` and `read` make them.
pub record Pipes (H E : Type 0) : Type 0 where
  pub write : Bytes → H → Outcome E ℕ × H
  pub read : ℕ → H → Outcome E Bytes × H
  pub timed_out : E

-- A write goes to the bulk OUT endpoint, a read to the bulk IN endpoint, with the device's timeout.
abbrev pub pipes : {H E : Type 0} → UsbHandle H E → (bulk_out bulk_in timeout : ℕ) → Pipes H E
pipes handle bulk_out bulk_in timeout = record {
  write = λ values h. handle.write bulk_out values timeout h;
  read = λ n h. handle.read bulk_in n timeout h;
  timed_out = handle.timed_out;
}

abbrev pub max_empty_reads : ℕ
max_empty_reads = 1024

module _ {H E : Type 0} (handle : Pipes H E) where
  -- What is left to be written behind one bulk write, and the loop on it.
  unfoldable pub written :
      Outcome E ℕ × H
      → Bytes
      → (Bytes → H → Option (Outcome E (Unit {0}) × H))
      → Option (Outcome E (Unit {0}) × H)
  written (ok n, h) values next =
      if ltb (length values) n then some (panic, h) else next (drop n values) h
  written (err e, h) values next = some (err e, h)
  written (panic, h) values next = some (panic, h)

  -- `none` means that the fuel, one unit for each bulk write, ran out.
  unfoldable pub write : ℕ → Bytes → H → Option (Outcome E (Unit {0}) × H)
  unfolding written
  write fuel [] h = some (ok tt, h)
  write zero (c ∷ values) h = none
  write (suc fuel) (c ∷ values) h = written (handle.write (c ∷ values) h) (c ∷ values) (write fuel)

-- The inner loop of `read`: `filled` is what stands at the start of `out`, of length `wanted`, and
-- `buf` is what the bulk read has given. A packet gives its payload without the 2 status bytes.
-- `none` means that the fuel, one unit for each packet, ran out.
unfoldable pub strip : ℕ → ℕ → ℕ → Bytes → ℕ → Bytes → Option Bytes
strip zero packet wanted buf off filled = if ltb off (length buf) then none else some filled
strip (suc fuel) packet wanted buf off filled =
    let end = min (off + packet) (length buf) in
    let payload = if ltb (off + 2) end then drop (off + 2) (take end buf) else [] in
    let taken = min (length payload) (wanted - length filled) in
    let rest = strip fuel packet wanted buf end (filled ++ take taken payload) in
    if ltb off (length buf) then rest else some filled

-- What goes on behind the inner loop, if its fuel was enough.
abbrev behind {ℓ} : {B : Type ℓ} → Option Bytes → (Bytes → Option B) → Option B
behind none next = none
behind (some filled) next = next filled

module _ {H E : Type 0} (handle : Pipes H E) (packet wanted : ℕ) where
  -- `if filled > before`: the count of empty reads, or the end of the loop.
  unfoldable pub counted :
      ℕ → ℕ → Bytes → H → (ℕ → Option (Outcome E Bytes × H)) → Option (Outcome E Bytes × H)
  counted before empty_reads filled h next =
      if ltb before (length filled)
      then next 0
      else if leb max_empty_reads (empty_reads + 1)
      then some (err handle.timed_out, h)
      else next (empty_reads + 1)

  -- What one bulk read comes to. A packet's bytes are gone through one packet at a time, so that
  -- as many rounds as there are bytes do.
  unfoldable pub stripped :
      Outcome E Bytes × H
      → ℕ
      → Bytes
      → (ℕ → Bytes → H → Option (Outcome E Bytes × H))
      → Option (Outcome E Bytes × H)
  unfolding counted
  stripped (ok buf, h) empty_reads filled next =
      behind (strip (length buf) packet wanted buf 0 filled)
        λ filled'. counted (length filled) empty_reads filled' h (λ n. next n filled' h)
  stripped (err e, h) empty_reads filled next = some (err e, h)
  stripped (panic, h) empty_reads filled next = some (panic, h)

  -- The outer loop of `read`: `filled` is what stands at the start of `out`, of length `wanted`.
  -- `none` means that the fuel, one unit for each bulk read, ran out.
  unfoldable pub read_loop : ℕ → ℕ → Bytes → H → Option (Outcome E Bytes × H)
  unfolding stripped
  read_loop zero empty_reads filled h =
      if ltb (length filled) wanted then none else some (ok filled, h)
  read_loop (suc fuel) empty_reads filled h =
      let more = stripped (handle.read packet h) empty_reads filled (read_loop fuel) in
      if ltb (length filled) wanted then more else some (ok filled, h)

  unfoldable pub read : ℕ → H → Option (Outcome E Bytes × H)
  read fuel h = read_loop fuel 0 [] h

-- The result of a transfer, which is one if the fuel was enough.
abbrev pub ended : {H E A : Type 0} → Option (Outcome E A × H) → H → Outcome E A × H
ended none h = (panic, h)
ended (some r) h = r
