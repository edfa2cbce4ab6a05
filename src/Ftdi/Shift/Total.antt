-- ===== src/Ftdi/Shift/Total.antt =====
-- The whole of `shift_chunks`.
use xvc_rs.Prelude.{
  ℕ, zero, suc, ◌+◌, ◌-◌, ◌*◌, ◌≤◌, ◌<◌, ◌^◌, ◌≡◌, refl, Bool, true, ◌==◌, List, [], ◌∷◌, arith,
  Bytes, AllU8, length, Bool-cases, inl, inr, div_ceil, div_ceil-eight,
}
use xvc_rs.Ftdi.Bits.Vector.{at}
use xvc_rs.Ftdi.Usb.{Pipes}
use xvc_rs.Ftdi.Usb.Write.{Writes}
use xvc_rs.Ftdi.Usb.Read.{Reads}
use xvc_rs.Ftdi.Shift.{Mpsse}
use xvc_rs.Ftdi.Shift.Chunks.{or_stop, shift_loop, shift_chunks}
use xvc_rs.Ftdi.Shift.Tallied.{reply_bytes}
use xvc_rs.Ftdi.Shift.Fill.{fill-Filled}
use xvc_rs.Ftdi.Shift.Got.{Got}
use xvc_rs.Ftdi.Shift.Exchange.{ReadsU8, Shifts, exchange-Shifts}

module _ {H E : Type 0} (handle : Pipes H E) (mpsse : Mpsse) (out_size in_size : ℕ)
    (tms tdi : Bytes) (sent : H → Bytes) where
  shift_loop-Shifts :
      (size fuel left p : ℕ) (got : List Bool) (tdo : Bytes) (h : H)
      → ((h : H) (c : ℕ) (values : Bytes)
          → Writes handle sent h (c ∷ values) (handle.write (c ∷ values) h))
      → ((wanted : ℕ) (h : H) → Reads handle in_size wanted (handle.read in_size h))
      → ReadsU8 handle in_size
      → left ≤ fuel
      → AllU8 tms
      → AllU8 tdi
      → p + left ≤ length tms * 8
      → length tdi ≡ length tms
      → 7 ≤ out_size
      → out_size < 2 ^ 16
      → p + left ≤ size * 8
      → Got size p got tdo
      → Shifts handle mpsse out_size in_size tms tdi sent size left p got tdo h
          (shift_loop handle mpsse out_size in_size tms tdi fuel left (at p) tdo (at p) h)
  unfolding shift_loop or_stop
  shift_loop-Shifts size zero left p got tdo h writes reads bytes enough us ui range alike some
        small room all =
      let z : left ≡ 0 = omega arith in rw z (Shifts.finished p got tdo h all)
  shift_loop-Shifts size (suc fuel) left p got tdo h writes reads bytes enough us ui range alike
        some small room all =
      elim (Bool-cases (left == 0)) [
        | inl done ↦ (let z : left ≡ 0 = ground arith in rw z (Shifts.finished p got tdo h all))
        | inr more ↦
            let (n, new, sizes, e, pos, le, clocks, tight) =
              fill-Filled {E = E} mpsse out_size tms tdi left p us ui range alike some small
                (ground arith) in
            rw (more, e)
              (exchange-Shifts handle mpsse out_size in_size tms tdi sent size n left p new sizes
                got tdo h
                (λ tdo' place h'.
                  shift_loop handle mpsse out_size in_size tms tdi fuel (left - n) (at (p + n)) tdo'
                    place h')
                writes (reads (reply_bytes sizes)) bytes (pos, le, clocks, tight, all) room
                (λ tdo' got' h' all'.
                  shift_loop-Shifts size fuel (left - n) (p + n) got' tdo' h' writes reads bytes
                    (omega arith) us ui (omega arith) alike some small (omega arith) all'))
      ]

  -- Let every bulk write take at least one of the bytes it is given, in order, or fail and take
  -- none, and every bulk read bring at most one packet, of bytes below 256, or fail. If TMS and TDI
  -- are byte vectors of one byte for each eight bits begun, `tdo` is a byte vector and at least as
  -- long, and the packet size is at least 7 and below 2 ^ 16, then `shift_chunks` is a run of
  -- chunks: each takes at least one of the bits to go, its commands clock exactly these bits out and
  -- are no longer than a packet, all of the command is sent, as many bytes are read as reply to it,
  -- and their bits are put behind those in `tdo`; the run ends when no bits are left, or with the
  -- error of a write or of a read, and `tdo` then has the bits that replied to the chunks before,
  -- with zeros behind them to the end of the byte.
  pub shift_chunks-Shifts :
      (num_bits : ℕ) (tdo : Bytes) (h : H)
      → ((h : H) (c : ℕ) (values : Bytes)
          → Writes handle sent h (c ∷ values) (handle.write (c ∷ values) h))
      → ((wanted : ℕ) (h : H) → Reads handle in_size wanted (handle.read in_size h))
      → ReadsU8 handle in_size
      → AllU8 tms
      → AllU8 tdi
      → AllU8 tdo
      → length tdi ≡ length tms
      → div_ceil num_bits 8 ≡ length tdi
      → length tdi ≤ length tdo
      → 7 ≤ out_size
      → out_size < 2 ^ 16
      → Shifts handle mpsse out_size in_size tms tdi sent
          (length tdo)
          num_bits
          0
          []
          tdo
          h
          (shift_chunks handle mpsse out_size in_size tms tdi num_bits tdo h)
  unfolding shift_chunks or_stop
  shift_chunks-Shifts num_bits tdo h writes reads bytes us ui uo alike sized long some small =
      let same : (length tdi == length tms) ≡ true = ground arith in
      let same' : (div_ceil num_bits 8 == length tdi) ≡ true = ground arith in
      rw (same, same')
        (shift_loop-Shifts (length tdo) num_bits num_bits 0 [] tdo h writes reads bytes
          (omega arith) us ui (omega (arith, div_ceil-eight num_bits)) alike some small
          (omega (arith, div_ceil-eight num_bits))
          (refl, uo, refl, λ j le lt. absurd (omega arith)))
