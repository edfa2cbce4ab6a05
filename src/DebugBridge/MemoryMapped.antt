-- ===== src/DebugBridge/MemoryMapped.antt =====
-- `MemoryMappedBackend` of xvc-server-debugbridge/src/backends/memory_mapped.rs.
pub mod Words
pub mod Sizes
use xvc_rs.Prelude.{
  ℕ, zero, suc, ◌+◌, ◌-◌, ◌/◌, ◌%◌, ◌^◌, Bool, true, false, not, [], ◌∷◌, ◌++◌, ltb, leb, ◌==◌,
  if◌then◌else◌, Bytes, codes, Outcome, ok, err, panic, ◌>>=◌, length, take, drop, slice_from,
  slice_to, replicate, div_ceil, to_le_bytes, from_le_bytes,
}
use xvc_rs.Errors.{IoError, timed_out, write_zero, other}

abbrev pub length_offset : ℕ
length_offset = 0

abbrev pub tms_reg_offset : ℕ
tms_reg_offset = 1

abbrev pub tdi_reg_offset : ℕ
tdi_reg_offset = 2

abbrev pub tdo_reg_offset : ℕ
tdo_reg_offset = 3

abbrev pub control_reg_offset : ℕ
control_reg_offset = 4

-- The mapped registers of a bridge in state `H`: volatile accesses at a word's offset, and the number
-- of polls that the clock allows from a state before the timeout is over.
pub record Registers (H : Type 0) : Type 0 where
  pub write_volatile : ℕ → ℕ → H → H
  pub read_volatile : ℕ → H → ℕ × H
  pub patience : H → ℕ

abbrev pub io_other : Bytes → IoError
io_other message = record { kind = other 0; message = message }

-- `u32_from_u8_slice`; the targets are little-endian.
unfoldable pub u32_from_u8_slice : {E : Type 0} → Bytes → Outcome E ℕ
u32_from_u8_slice [] = ok (from_le_bytes 0 0 0 0)
u32_from_u8_slice (a ∷ []) = ok (from_le_bytes a 0 0 0)
u32_from_u8_slice (a ∷ b ∷ []) = ok (from_le_bytes a b 0 0)
u32_from_u8_slice (a ∷ b ∷ c ∷ []) = ok (from_le_bytes a b c 0)
u32_from_u8_slice (a ∷ b ∷ c ∷ d ∷ []) = ok (from_le_bytes a b c d)
u32_from_u8_slice _ = panic

-- `Cursor<&mut [u8]>`
pub record Cursor : Type 0 where
  pub buf : Bytes
  pub pos : ℕ

-- `cursor.write_all(s)`: what does not fit is cut off, with an error.
unfoldable pub write_cursor : Cursor → Bytes → Outcome IoError (Unit {0}) × Cursor
write_cursor c s =
    if leb (c.pos + length s) (length c.buf)
    then (
      ok tt,
      record {
        buf = take c.pos c.buf ++ (s ++ drop (c.pos + length s) c.buf);
        pos = c.pos + length s;
      },
    )
    else (
      err (record { kind = write_zero; message = codes "failed to write whole buffer" }),
      record { buf = take c.pos c.buf ++ take (length c.buf - c.pos) s; pos = length c.buf },
    )

module _ {H : Type 0} (mem : Registers H) where
  open mem use {write_volatile, read_volatile, patience}

  -- The polls that are left. The result is whether the bridge was ready in time.
  unfoldable pub poll_until_ready : ℕ → H → Bool × H
  poll_until_ready zero h = (false, h)
  poll_until_ready (suc polls) h =
      let (control, h') = read_volatile control_reg_offset h in
      let again = poll_until_ready polls h' in if control == 0 then (true, h') else again

  -- The registers' part of a round: write, start, wait, and read the TDO word.
  unfoldable pub exchange : ℕ → ℕ → ℕ → H → Outcome IoError ℕ × H
  unfolding poll_until_ready
  exchange shift_num_bits tms tdi h =
      let h₁ = write_volatile length_offset shift_num_bits h in
      let h₂ = write_volatile tms_reg_offset tms h₁ in
      let h₃ = write_volatile tdi_reg_offset tdi h₂ in
      let h₄ = write_volatile control_reg_offset 1 h₃ in
      let (ready, h₅) = poll_until_ready (patience h₄) h₄ in
      let (tdo, h₆) = read_volatile tdo_reg_offset h₅ in
      if ready then (ok tdo, h₆) else (
        err (record {
          kind = timed_out;
          message = codes "Timed out while waiting for JTAG response";
        }),
        h₅,
      )

  -- The result of a shift, `tdo` as it is left, and the bridge.
  abbrev pub Shifted : Type 0
  Shifted = Outcome IoError (Unit {0}) × Bytes × H

  -- `tdo.write_all(read)?`
  unfoldable pub stored : Outcome IoError (Unit {0}) × Cursor → H → (Cursor → H → Shifted) → Shifted
  stored (ok _, tdo) h next = next tdo h
  stored (err e, tdo) h next = (err e, tdo.buf, h)
  stored (panic, tdo) h next = (panic, tdo.buf, h)

  -- The word that was read, cut to the bytes of the round.
  unfoldable pub keep : Outcome IoError Bytes → H → Cursor → (Cursor → H → Shifted) → Shifted
  unfolding stored
  keep (ok read) h tdo next = stored (write_cursor tdo read) h next
  keep (err e) h tdo next = (err e, tdo.buf, h)
  keep panic h tdo next = (panic, tdo.buf, h)

  unfoldable pub received : ℕ → Outcome IoError ℕ × H → Cursor → (Cursor → H → Shifted) → Shifted
  unfolding keep
  received shift_num_bytes (ok word, h) tdo next =
      keep (slice_to shift_num_bytes (to_le_bytes word)) h tdo next
  received shift_num_bytes (err e, h) tdo next = (err e, tdo.buf, h)
  received shift_num_bytes (panic, h) tdo next = (panic, tdo.buf, h)

  -- The words of a round, or a panic where a slice is out of range. They are made in front of the first
  -- register's write, which the source makes first; no slice is out of range behind the size tests.
  unfoldable pub words : ℕ → Bytes → Bytes → Outcome IoError (ℕ × ℕ)
  words shift_num_bytes tms tdi = do
    tms_slice ← slice_to shift_num_bytes tms
    tms_word ← u32_from_u8_slice tms_slice
    tdi_slice ← slice_to shift_num_bytes tdi
    tdi_word ← u32_from_u8_slice tdi_slice
    ok (tms_word, tdi_word)

  unfoldable pub with_words : Outcome IoError (ℕ × ℕ) → Cursor → H → (ℕ → ℕ → Shifted) → Shifted
  with_words (ok (tms, tdi)) tdo h go = go tms tdi
  with_words (err e) tdo h go = (err e, tdo.buf, h)
  with_words panic tdo h go = (panic, tdo.buf, h)

  -- The `while` loop, with an overflow check on `bits_left -= shift_num_bits`. A round takes at least a byte off `tms`, so its length is enough fuel.
  unfoldable pub shift_words : ℕ → ℕ → Bytes → Bytes → Cursor → H → Shifted
  unfolding received with_words
  shift_words fuel bits_left [] tdi tdo h = (ok tt, tdo.buf, h)
  shift_words zero bits_left (t ∷ tms) tdi tdo h = (panic, tdo.buf, h)
  shift_words (suc fuel) bits_left (t ∷ tms) tdi tdo h =
      let shift_num_bits = if leb (length (t ∷ tms)) 4 then bits_left else 32 in
      let shift_num_bytes = div_ceil shift_num_bits 8 in
      with_words (words shift_num_bytes (t ∷ tms) tdi) tdo h λ tms_word tdi_word.
        received shift_num_bytes (exchange shift_num_bits tms_word tdi_word h) tdo λ tdo' h'.
          let rest =
            shift_words fuel (bits_left - shift_num_bits) (drop shift_num_bytes (t ∷ tms))
              (drop shift_num_bytes tdi) tdo' h' in
          if ltb bits_left shift_num_bits then (panic, tdo'.buf, h') else rest

  unfoldable pub shift_data : ℕ → Bytes → Bytes → Bytes → H → Shifted
  shift_data num_bits tms tdi tdo h =
      let num_bytes = div_ceil num_bits 8 in
      if not (length tms == num_bytes)
      then (err (io_other (codes "TMS has incorrect size")), tdo, h)
      else if not (length tdi == num_bytes)
      then (err (io_other (codes "TDI has incorrect size")), tdo, h)
      else if not (length tdo == num_bytes)
      then (err (io_other (codes "TDO has incorrect size")), tdo, h)
      else shift_words (length tms) num_bits tms tdi (record { buf = tdo; pos = 0 }) h
