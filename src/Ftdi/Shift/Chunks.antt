-- ===== src/Ftdi/Shift/Chunks.antt =====
-- `shift_chunks` of xvc-server-usb/src/ftdi_device.rs: a chunk's transfers, its reply, and the loop
-- over the chunks.
use xvc_rs.Prelude.{
  ℕ, zero, suc, ◌+◌, ◌-◌, ◌*◌, ◌%◌, ◌^◌, ◌==◌, if◌then◌else◌, ltb, Option, some, none, List, [],
  ◌∷◌, ◌++◌, Bytes, Outcome, ok, err, panic, ◌>>=◌, assert, length, div_ceil,
}
use xvc_rs.Ftdi.Bits.Vector.{Place, step, pin, or_at, clear_at}
use xvc_rs.Ftdi.Usb
use xvc_rs.Ftdi.Usb.{Pipes}
use xvc_rs.Ftdi.Shift.{Mpsse, Chunk, send_immediate, fill}

-- What has been taken from the received bytes, and put into `tdo`.
pub record Rx : Type 0 where
  pub tdo : Bytes
  pub place : Place
  pub rx_index : ℕ
  pub rx_bit : ℕ

-- `if rx_bitcount < 8 { 0x1 << (8 - rx_bitcount) } else { 0x01 }`; a count is not zero here.
abbrev pub first_mask : ℕ → ℕ
first_mask count = if ltb count 8 then 2 ^ (8 - count) else 1

module _ {E : Type 0} (rx_buf : Bytes) where
  -- The body of the loop on one received bit, with the count behind it.
  unfoldable pub take_bit : ℕ → Rx → Outcome E Rx
  take_bit count r = do
    tdo₁ ← if r.place.mask == 1 then clear_at r.tdo r.place.index else ok r.tdo
    t ← pin rx_buf (record { index = r.rx_index; mask = r.rx_bit })
    tdo₂ ← if t then or_at tdo₁ r.place.index r.place.mask else ok tdo₁
    ok (record {
      tdo = tdo₂;
      place = step r.place;
      rx_index = if r.rx_bit == 0x80 then r.rx_index + 1 else r.rx_index;
      rx_bit =
          if r.rx_bit == 0x80
          then (if count == 0 then r.rx_bit else first_mask count)
          else r.rx_bit * 2 % 256;
    })

  unfoldable pub take_bits : ℕ → Rx → Outcome E Rx
  unfolding take_bit
  take_bits zero r = ok r
  take_bits (suc count) r = take_bit count r >>= take_bits count

  -- `for mut rx_bitcount in take(&mut rx_bitcounts)`
  unfoldable pub receive : List ℕ → Rx → Outcome E Rx
  unfolding take_bits
  receive [] r = ok r
  receive (count ∷ counts) r =
      take_bits count (record r { rx_bit = first_mask count }) >>= receive counts

-- The result of a shift, `tdo` as it is left, and the adapter.
abbrev pub Shifted : Type 0 → Type 0 → Type 0
Shifted H E = Outcome E (Unit {0}) × Bytes × H

module _ {H E : Type 0} where
  -- `?` in the loop, with `tdo` as it is.
  unfoldable pub or_stop : {A : Type 0} → Outcome E A → Bytes → H → (A → Shifted H E) → Shifted H E
  or_stop (ok a) tdo h next = next a
  or_stop (err e) tdo h next = (err e, tdo, h)
  or_stop panic tdo h next = (panic, tdo, h)

  -- The same behind a transfer; `none` would be one whose fuel ran out.
  unfoldable pub transferred :
      {A : Type 0} → Option (Outcome E A × H) → Bytes → H → (A → H → Shifted H E) → Shifted H E
  unfolding or_stop
  transferred none tdo h next = (panic, tdo, h)
  transferred (some (result, h')) tdo h next = or_stop result tdo h' (λ a. next a h')

module _ {H E : Type 0} (handle : Pipes H E) (mpsse : Mpsse) (out_size in_size : ℕ)
    (tms tdi : Bytes) where
  open mpsse use {as_slice}

  -- A chunk is written, its reply is read, and the reply's bits are put into `tdo`.
  unfoldable pub exchange :
      Chunk → Bytes → Place → H → (Bytes → Place → H → Shifted H E) → Shifted H E
  unfolding transferred receive
  exchange c tdo tdo_place h next =
      let command = as_slice (c.calls ++ send_immediate ∷ []) in
      transferred (Usb.write handle (length command) command h) tdo h λ _ h₁.
        transferred (Usb.read handle in_size c.wanted ((c.wanted + 1) * 1024) h₁) tdo h₁
          λ rx_buf h₂.
            or_stop
              (receive rx_buf c.bitcounts
                (record { tdo = tdo; place = tdo_place; rx_index = 0; rx_bit = 1 }))
              tdo h₂ λ r. next r.tdo r.place h₂

  -- The outer loop. A chunk has a bit, so that `num_bits` is fuel enough.
  unfoldable pub shift_loop : ℕ → ℕ → Place → Bytes → Place → H → Shifted H E
  unfolding fill exchange
  shift_loop zero left place tdo tdo_place h =
      if left == 0 then (ok tt, tdo, h) else (panic, tdo, h)
  shift_loop (suc fuel) left place tdo tdo_place h =
      let chunk =
        or_stop
          (fill mpsse out_size tms tdi left
            (record { calls = []; bitcounts = []; wanted = 0; left = left; place = place }))
          tdo h
          λ c.
            exchange c tdo tdo_place h
              λ tdo' tdo_place' h'. shift_loop fuel c.left c.place tdo' tdo_place' h' in
      if left == 0 then (ok tt, tdo, h) else chunk

  unfoldable pub shift_chunks : ℕ → Bytes → H → Shifted H E
  shift_chunks num_bits tdo h =
      let start : Place = record { index = 0; mask = 1 } in
      or_stop
        (assert (length tdi == length tms) >>= λ _. assert (div_ceil num_bits 8 == length tdi)) tdo
        h λ _. shift_loop num_bits num_bits start tdo start h
