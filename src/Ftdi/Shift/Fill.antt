-- ===== src/Ftdi/Shift/Fill.antt =====
-- The loop of `shift_chunks` that fills a chunk with commands.
use xvc_rs.Prelude.{
  ℕ, zero, suc, ◌+◌, ◌-◌, ◌*◌, ◌≤◌, ◌<◌, ◌^◌, ◌≡◌, refl, ◌∙◌, List, [], ◌++◌, append_assoc, arith,
  Bytes, AllU8, Outcome, ok, length, Bool-cases, inl, inr,
}
use xvc_rs.Ftdi.Shift.{Call, Mpsse, Chunk, fill}
use xvc_rs.Ftdi.Shift.Tms.{chunk}
use xvc_rs.Ftdi.Shift.Tallied.{reply_bytes, reply_bytes-append}
use xvc_rs.Ftdi.Shift.Clocks.{Clocks, Clocks-append}
use xvc_rs.Ftdi.Shift.Round.{round-RoundDone}

module _ {E : Type 0} (mpsse : Mpsse) (out_size : ℕ) (tms tdi : Bytes) where
  open mpsse use {as_slice, length-as_slice-nil, length-clock_tms}

  -- What the loop leaves.
  abbrev FillDone : List Call → List ℕ → ℕ → ℕ → ℕ → Outcome E Chunk → Type 0
  FillDone calls counts wanted left p result =
      (n : ℕ) × (new : List Call) × (sizes : List ℕ) × (result
        ≡ ok (
            chunk (calls ++ new) (counts ++ sizes) (wanted + reply_bytes sizes) (left - n) (p + n)))
      × (0 < n)
      × (n ≤ left)
      × Clocks tms tdi new sizes p n
      × (length (as_slice (calls ++ new)) ≤ out_size)

  fill_step :
      (calls new new' : List Call) (counts sizes sizes' : List ℕ) (wanted left p n n' : ℕ)
      {result : Outcome E Chunk}
      → n' ≤ left - n
      → 0 < n
      → n ≤ left
      → Clocks tms tdi new sizes p n
      → Clocks tms tdi new' sizes' (p + n) n'
      → length (as_slice ((calls ++ new) ++ new')) ≤ out_size
      → result
        ≡ ok (
            chunk
              ((calls ++ new) ++ new')
              ((counts ++ sizes) ++ sizes')
              (wanted + reply_bytes sizes + reply_bytes sizes')
              (left - n - n')
              (p + n + n'))
      → FillDone calls counts wanted left p result
  fill_step calls new new' counts sizes sizes' wanted left p n n' le' pos le clocks clocks' size e =
      let a : wanted + reply_bytes sizes + reply_bytes sizes'
          ≡ wanted + reply_bytes (sizes ++ sizes') =
        omega (arith, reply_bytes-append sizes sizes') in
      let b : left - n - n' ≡ left - (n + n') = omega arith in
      let c : p + n + n' ≡ p + (n + n') = omega arith in
      (
        n + n',
        new ++ new',
        sizes ++ sizes',
        e ∙ rw (append_assoc calls new new', append_assoc counts sizes sizes', a, b, c) refl,
        omega arith,
        omega arith,
        Clocks-append tms tdi new new' sizes sizes' p n n' clocks clocks',
        rw (append_assoc calls new new') at size,
      )

  fill-FillDone :
      (fuel : ℕ) (calls : List Call) (counts : List ℕ) (wanted left p : ℕ)
      → left ≤ fuel
      → AllU8 tms
      → AllU8 tdi
      → p + left ≤ length tms * 8
      → length tdi ≡ length tms
      → 7 ≤ out_size
      → out_size < 2 ^ 16
      → length (as_slice calls) + 7 ≤ out_size
      → 0 < left
      → FillDone calls counts wanted left p
          (fill {E = E} mpsse out_size tms tdi fuel (chunk calls counts wanted left p))
  unfolding fill
  fill-FillDone zero calls counts wanted left p enough us ui range alike some small tight
        some_left =
      absurd (omega arith)
  fill-FillDone (suc fuel) calls counts wanted left p enough us ui range alike some small tight
        some_left =
      let (n, new, sizes, more, e, pos, le, clocks, size, ready) =
        round-RoundDone {E = E} mpsse out_size tms tdi calls counts wanted left p us ui range alike
          some small tight some_left in
      elim (Bool-cases more) [
        | inr stop ↦ (n, new, sizes, rw (e, stop) refl, pos, le, clocks, size)
        | inl go_on ↦
            let (fewer, tight') = ready go_on in
            let (n', new', sizes', e', pos', le', clocks', size') =
              fill-FillDone fuel (calls ++ new) (counts ++ sizes) (wanted + reply_bytes sizes)
                (left - n) (p + n) (omega arith) us ui (omega arith) alike some small tight'
                (omega arith) in
            fill_step calls new new' counts sizes sizes' wanted left p n n' le' pos le clocks
              clocks' size' (rw (e, go_on) e')
      ]

  -- The chunk that `shift_chunks` makes for `n` bits from `p` on, of the `left` ones to go.
  abbrev pub Filled : ℕ → ℕ → Outcome E Chunk → Type 0
  Filled left p result =
      (n : ℕ) × (new : List Call) × (sizes : List ℕ) × (result
        ≡ ok (chunk new sizes (reply_bytes sizes) (left - n) (p + n)))
      × (0 < n)
      × (n ≤ left)
      × Clocks tms tdi new sizes p n
      × (length (as_slice new) ≤ out_size)

  -- If TMS and TDI are byte vectors of the same size with at least one bit to go from the `p`th on,
  -- and the packet size is at least 7 and below 2 ^ 16, then filling a builder panics nowhere and
  -- takes at least one bit. The builder's calls clock exactly the bits that it has taken out, in
  -- order, on the TDI pin and on the TMS pin, whatever level the TMS pin had before; the counts are
  -- positive and sum up to these bits, the bytes wanted are those that reply to the counts, and the
  -- calls' bytes are no more than a packet.
  pub fill-Filled :
      (left p : ℕ)
      → AllU8 tms
      → AllU8 tdi
      → p + left ≤ length tms * 8
      → length tdi ≡ length tms
      → 7 ≤ out_size
      → out_size < 2 ^ 16
      → 0 < left
      → Filled left p (fill {E = E} mpsse out_size tms tdi left (chunk [] [] 0 left p))
  fill-Filled left p us ui range alike some small some_left =
      let (n, new, sizes, e, pos, le, clocks, tight) =
        fill-FillDone left [] [] 0 left p (omega arith) us ui range alike some small
          (omega (arith, length-as_slice-nil)) some_left in
      let z : 0 + reply_bytes sizes ≡ reply_bytes sizes = omega arith in
      (n, new, sizes, rw z at e, pos, le, clocks, tight)
