-- ===== src/Ftdi/Shift/Receive.antt =====
-- The loop of `shift_chunks` that puts the bits of the replies into `tdo`.
use xvc_rs.Prelude.{
  ℕ, zero, suc, ◌+◌, ◌-◌, ◌*◌, ◌/◌, ◌≤◌, ◌<◌, ◌≡◌, refl, ap, ◌∙◌, Bool, true, false, ltb, lt→ltb,
  List, [], ◌∷◌, ◌++◌, append-nil, append_assoc, arith, Bytes, AllU8, Outcome, ok, length, div_ceil,
  div_ceil-eight,
}
use xvc_rs.Ftdi.Bits.{is_set-digit}
use xvc_rs.Ftdi.Bits.Vector.{at, step-at, pin, byte_at, byte_at-lt, put, or_at-put}
use xvc_rs.Ftdi.Shift.Chunks.{Rx, take_bit, take_bits, receive}
use xvc_rs.Ftdi.Shift.Pins.{span, reply_bit, replies}
use xvc_rs.Ftdi.Shift.Tallied.{reply_bytes}
use xvc_rs.Ftdi.Shift.Clocks.{total, Positive}
use xvc_rs.Ftdi.Shift.Reply.{shift, shift-lt, rx_at, first_mask-shift, rx_next}
use xvc_rs.Ftdi.Shift.Got.{Got, Got-eq, cleaned, cleaned_lem, Got-cleaned, Got-put}

module _ {E : Type 0} (rx : Bytes) (size : ℕ) where
  take_bit_lem :
      (rem index count i q : ℕ) (got : List Bool) (tdo : Bytes)
      → AllU8 rx
      → rem + suc i ≡ count
      → index + i / 8 < length rx
      → q / 8 < size
      → Got size q got tdo
      → (tdo' : Bytes) × (take_bit {E = E} rx rem (rx_at index count i tdo q)
          ≡ ok (rx_at index count (i + 1) tdo' (q + 1)))
        × Got size (q + 1) (got ++ reply_bit rx index count i ∷ []) tdo'
  unfolding take_bit pin reply_bit
  take_bit_lem rem index count i q got tdo u sum inside fits all =
      let lt : i < count = omega arith in
      let back : rem ≡ count - (i + 1) = omega arith in
      let t = reply_bit rx index count i in
      let (all', zero_here, zeros) = Got-cleaned size q got tdo fits all in
      let here : ltb i count ≡ true = lt→ltb i count lt in
      let in_rx : ltb (index + i / 8) (length rx) ≡ true = lt→ltb _ _ inside in
      let read =
        is_set-digit (byte_at rx (index + i / 8)) (shift count i) (byte_at-lt rx (index + i / 8) u)
          (shift-lt count i lt) in
      (
        put (cleaned tdo q) q t,
        rw
            (
              back,
              here,
              cleaned_lem {E = E} tdo q (omega (arith, all.0)),
              in_rx,
              read,
              or_at-put {E = E} (cleaned tdo q) q t (omega (arith, all'.0)),
              step-at q,
            )
            (ap ok (rx_next index count i (put (cleaned tdo q) q t) (q + 1) lt)),
        Got-put size q got (cleaned tdo q) t fits all' zero_here zeros,
      )

  take_bits_step :
      (index count i q rem : ℕ) (tdo tdo' tdo'' : Bytes)
      → take_bit {E = E} rx rem (rx_at index count i tdo q)
        ≡ ok (rx_at index count (i + 1) tdo' (q + 1))
      → take_bits {E = E} rx rem (rx_at index count (i + 1) tdo' (q + 1))
        ≡ ok (rx_at index count count tdo'' (q + 1 + rem))
      → take_bits {E = E} rx (suc rem) (rx_at index count i tdo q)
        ≡ ok (rx_at index count count tdo'' (q + suc rem))
  unfolding take_bits
  take_bits_step index count i q rem tdo tdo' tdo'' e e' =
      let place_lem : q + 1 + rem ≡ q + suc rem = omega arith in rw e (e' ∙ rw place_lem refl)

  receive_step :
      (count : ℕ) (counts : List ℕ) (index q mask mask' : ℕ) (tdo tdo' tdo'' : Bytes)
      → 0 < count
      → take_bits {E = E} rx count (rx_at index count 0 tdo q)
        ≡ ok (rx_at index count count tdo' (q + count))
      → receive {E = E} rx counts (record {
        tdo = tdo';
        place = at (q + count);
        rx_index = index + div_ceil count 8;
        rx_bit = 0x80;
      })
        ≡ ok (record {
          tdo = tdo'';
          place = at (q + count + total counts);
          rx_index = index + div_ceil count 8 + reply_bytes counts;
          rx_bit = mask';
        })
      → receive {E = E} rx
          (count ∷ counts)
          (record { tdo = tdo; place = at q; rx_index = index; rx_bit = mask })
        ≡ ok (record {
          tdo = tdo'';
          place = at (q + total (count ∷ counts));
          rx_index = index + reply_bytes (count ∷ counts);
          rx_bit = mask';
        })
  unfolding receive
  receive_step count counts index q mask mask' tdo tdo' tdo'' pos e e' =
      let begun : ltb 0 count ≡ true = lt→ltb 0 count pos in
      let done : ltb count count ≡ false = ground arith in
      let z : index + 0 / 8 ≡ index = omega arith in
      let place_lem : q + count + total counts ≡ q + (count + total counts) = omega arith in
      let index_lem : index + div_ceil count 8 + reply_bytes counts
          ≡ index + (div_ceil count 8 + reply_bytes counts) =
        omega arith in
      rw (first_mask-shift count pos)
        (rw (rw (begun, done, z) at e) (e' ∙ rw (place_lem, index_lem) refl))

  take_bits_lem :
      (rem index count i q : ℕ) (got : List Bool) (tdo : Bytes)
      → AllU8 rx
      → rem + i ≡ count
      → index + div_ceil count 8 ≤ length rx
      → q + rem ≤ size * 8
      → Got size q got tdo
      → (tdo' : Bytes) × (take_bits {E = E} rx rem (rx_at index count i tdo q)
          ≡ ok (rx_at index count count tdo' (q + rem)))
        × Got size (q + rem) (got ++ span (reply_bit rx index count) i rem) tdo'
  unfolding take_bits
  take_bits_lem zero index count i q got tdo u sum inside fits all =
      let e : i ≡ count = omega arith in
      let e' : q + 0 ≡ q = omega arith in (tdo, rw (e, e') refl, rw (e', append-nil got) all)
  take_bits_lem (suc rem) index count i q got tdo u sum inside fits all =
      let (tdo', e, all') =
        take_bit_lem rem index count i q got tdo u (omega arith)
          (omega (arith, div_ceil-eight count)) (omega arith) all in
      let (tdo'', e', all'') =
        take_bits_lem rem index count (i + 1) (q + 1) (got ++ reply_bit rx index count i ∷ []) tdo'
          u (omega arith) inside (omega arith) all' in
      (
        tdo'',
        take_bits_step index count i q rem tdo tdo' tdo'' e e',
        Got-eq size tdo'' (omega arith)
            (append_assoc got (reply_bit rx index count i ∷ [])
              (span (reply_bit rx index count) (i + 1) rem))
            all'',
      )

  -- All the bytes of the replies are taken, and their bits are in `tdo` behind the bits `got`.
  abbrev pub Received : List ℕ → ℕ → ℕ → List Bool → Outcome E Rx → Type 0
  Received counts index q got result =
      (tdo' : Bytes) × (mask' : ℕ) × (result
        ≡ ok (record {
          tdo = tdo';
          place = at (q + total counts);
          rx_index = index + reply_bytes counts;
          rx_bit = mask';
        }))
      × Got size (q + total counts) (got ++ replies rx index counts) tdo'

  -- Let the received bytes, all below 256, be at least those that reply to the counts, which are
  -- positive, and let `tdo` have room for their bits behind the first `q`. Then the loop over the
  -- counts panics nowhere, takes exactly the bytes that reply to the counts, and puts the bits of
  -- each reply into `tdo` behind the first `q`, which stay: a whole byte's bits from the lowest on,
  -- and those of a last byte with fewer bits from its upper end.
  pub receive-Got :
      (counts : List ℕ) (index q mask : ℕ) (got : List Bool) (tdo : Bytes)
      → AllU8 rx
      → Positive counts
      → index + reply_bytes counts ≤ length rx
      → q + total counts ≤ size * 8
      → Got size q got tdo
      → Received counts index q got (
          receive {E = E} rx counts
            (record { tdo = tdo; place = at q; rx_index = index; rx_bit = mask }))
  unfolding receive
  receive-Got [] index q mask got tdo u pos inside fits all =
      let e : index + 0 ≡ index = omega arith in
      let e' : q + 0 ≡ q = omega arith in (tdo, mask, rw (e, e') refl, rw (e', append-nil got) all)
  receive-Got (count ∷ counts) index q mask got tdo u (pos, others) inside fits all =
      let (tdo', e, all') =
        take_bits_lem count index count 0 q got tdo u (omega arith) (omega arith) (omega arith)
          all in
      let (tdo'', mask', e', all'') =
        receive-Got counts (index + div_ceil count 8) (q + count) 0x80
          (got ++ span (reply_bit rx index count) 0 count) tdo' u others (omega arith) (omega arith)
          all' in
      (
        tdo'',
        mask',
        receive_step count counts index q mask mask' tdo tdo' tdo'' pos e e',
        Got-eq size tdo'' (omega arith)
            (append_assoc got (span (reply_bit rx index count) 0 count)
              (replies rx (index + div_ceil count 8) counts))
            all'',
      )
