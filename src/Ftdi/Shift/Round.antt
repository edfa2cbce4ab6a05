-- ===== src/Ftdi/Shift/Round.antt =====
-- A round of the loop of `shift_chunks` that fills a chunk.
use xvc_rs.Prelude.{
  ℕ, ◌+◌, ◌-◌, ◌*◌, ◌/◌, ◌%◌, ◌≤◌, ◌<◌, ◌^◌, ◌≡◌, refl, Bool, true, false, ◌==◌, if◌then◌else◌, ltb,
  leb, List, [], ◌∷◌, ◌++◌, append_assoc, arith, Bytes, AllU8, Outcome, ok, length, replicate,
  length-replicate, Bool-cases, inl, inr, div_ceil, set,
}
use xvc_rs.Ftdi.Bits.Vector.{at, bit, clear_at_lem}
use xvc_rs.Ftdi.Shift.{Call, clock_tms, Mpsse, Chunk, send_tms, stash_tdi, round, room}
use xvc_rs.Ftdi.Shift.Tms.{chunk, send_tms-SentTms}
use xvc_rs.Ftdi.Shift.Carried.{running}
use xvc_rs.Ftdi.Shift.Tdi.{stash_tdi-Ran, room_lem}
use xvc_rs.Ftdi.Shift.Tail.{tail_calls, tail_counts}
use xvc_rs.Ftdi.Shift.Send.{length-tail_calls, send_tdi_lem}
use xvc_rs.Ftdi.Shift.Tallied.{reply_bytes}
use xvc_rs.Ftdi.Shift.Clocks.{reply_bytes-tail_counts, Clocks, Clocks-round}

-- Each of the commands for `n` TDI bits leaves the bytes of a chunk below its limit.
tight_lem :
    (len n out : ℕ)
    → len + (n + 7) / 8 + 5 ≤ out + (1 - n)
    → len + 4 ≤ out
    → len + (if leb 8 n then 3 + n / 8 else 0) + (if n % 8 == 0 then 0 else 3) ≤ out
tight_lem len n out h g = ground arith

module _ {E : Type 0} (mpsse : Mpsse) (out_size : ℕ) (tms tdi : Bytes) where
  open mpsse use {as_slice, length-as_slice-nil, length-clock_tms}

  -- What a round leaves, and whether another one follows.
  abbrev pub RoundDone : List Call → List ℕ → ℕ → ℕ → ℕ → Outcome E (Chunk × Bool) → Type 0
  RoundDone calls counts wanted left p result =
      (n : ℕ) × (new : List Call) × (sizes : List ℕ) × (more : Bool) × (result
        ≡ ok (
          chunk (calls ++ new) (counts ++ sizes) (wanted + reply_bytes sizes) (left - n) (p + n),
          more,
        ))
      × (0 < n)
      × (n ≤ left)
      × Clocks tms tdi new sizes p n
      × (length (as_slice (calls ++ new)) ≤ out_size)
      × (more ≡ true → (n < left) × (length (as_slice (calls ++ new)) + 7 ≤ out_size))

  more_lem :
      (calls : List Call) (left k : ℕ)
      → 7 ≤ out_size
      → length (as_slice calls) + k / 8 < 2 ^ 16
      → (more : Bool) × ((if left == 0
            then ok false
            else room {E = E} mpsse out_size tms tdi calls k 6)
          ≡ ok more)
        × (more ≡ true → (0 < left) × (length (as_slice calls) + 7 ≤ out_size))
  more_lem calls left k some small = elim (Bool-cases (left == 0)) [
    | inl done ↦ (false, rw done refl, λ e. cc)
    | inr go_on ↦ (
      ltb (length (as_slice calls) + k / 8) (out_size - 6),
      rw go_on (room_lem mpsse out_size tms tdi calls k 6 (omega arith) small),
      λ e. (ground arith, ground arith),
    )
  ]

  -- A round that has taken `m + 1` bits in a TMS command, and `n` TDI bits behind them.
  round_step :
      (calls : List Call) (counts : List ℕ) (wanted left p m n bits : ℕ) (buf : Bytes)
      → send_tms {E = E} mpsse out_size tms tdi (chunk calls counts wanted left p)
        ≡ ok (
          chunk
              (calls ++ clock_tms bits (bit tdi p) (m + 1) ∷ [])
              (counts ++ (m + 1) ∷ [])
              (wanted + 1)
              (left - (m + 1))
              (p + (m + 1)),
          bit tms (p + m),
        )
      → stash_tdi {E = E} mpsse out_size tms tdi
          (left - (m + 1))
          (calls ++ clock_tms bits (bit tdi p) (m + 1) ∷ [])
          (bit tms (p + m))
          (record {
            left = left - (m + 1);
            place = at (p + (m + 1));
            count = 0;
            mask = 1;
            cmd_index = 0;
            buf = set (replicate out_size 0) 0 0;
          })
        ≡ ok (running (p + (m + 1)) (left - (m + 1) - n) n buf)
      → m < 6
      → m < left
      → n ≤ left - (m + 1)
      → n / 8 < length buf
      → 7 ≤ out_size
      → out_size < 2 ^ 16
      → length (as_slice (calls ++ clock_tms bits (bit tdi p) (m + 1) ∷ tail_calls n buf))
        ≤ out_size
      → Clocks tms tdi
          (clock_tms bits (bit tdi p) (m + 1) ∷ tail_calls n buf)
          ((m + 1) ∷ tail_counts n)
          p
          (m + 1 + n)
      → RoundDone calls counts wanted left p
          (round {E = E} mpsse out_size tms tdi (chunk calls counts wanted left p))
  unfolding round
  round_step calls counts wanted left p m n bits buf e e' few lt le fits some small size clocks =
      let call = clock_tms bits (bit tdi p) (m + 1) in
      let new = call ∷ tail_calls n buf in
      let (more, e'', ready) =
        more_lem (calls ++ new) (left - (m + 1) - n) (n % 8) some (omega arith) in
      let sized : (calls ++ call ∷ []) ++ tail_calls n buf ≡ calls ++ new =
        append_assoc calls (call ∷ []) (tail_calls n buf) in
      let counted : (counts ++ (m + 1) ∷ []) ++ tail_counts n ≡ counts ++ (m + 1) ∷ tail_counts n =
        append_assoc counts ((m + 1) ∷ []) (tail_counts n) in
      let one : div_ceil (m + 1) 8 ≡ 1 = ground arith in
      let replies : wanted + 1 + div_ceil n 8 ≡ wanted + (1 + reply_bytes (tail_counts n)) =
        rw (reply_bytes-tail_counts n) (omega arith) in
      let left_lem : left - (m + 1) - n ≡ left - (m + 1 + n) = omega arith in
      let place_lem : p + (m + 1) + n ≡ p + (m + 1 + n) = omega arith in
      (
        m + 1 + n,
        new,
        (m + 1) ∷ tail_counts n,
        more,
        rw
            (
              e,
              clear_at_lem {E = E} (replicate out_size 0) 0
                  (omega (arith, length-replicate {A = ℕ} out_size 0)),
              e',
              send_tdi_lem {E = E} mpsse out_size tms tdi
                  (chunk (calls ++ call ∷ []) (counts ++ (m + 1) ∷ []) (wanted + 1) (left - (m + 1))
                    (p + (m + 1)))
                  (running (p + (m + 1)) (left - (m + 1) - n) n buf) fits,
              sized,
              e'',
              one,
            )
            (rw (counted, replies, left_lem, place_lem) refl),
        omega arith,
        omega arith,
        clocks,
        size,
        λ go_on. (let h = ready go_on in (omega arith, h.1)),
      )

  pub round-RoundDone :
      (calls : List Call) (counts : List ℕ) (wanted left p : ℕ)
      → AllU8 tms
      → AllU8 tdi
      → p + left ≤ length tms * 8
      → length tdi ≡ length tms
      → 7 ≤ out_size
      → out_size < 2 ^ 16
      → length (as_slice calls) + 7 ≤ out_size
      → 0 < left
      → RoundDone calls counts wanted left p
          (round {E = E} mpsse out_size tms tdi (chunk calls counts wanted left p))
  round-RoundDone calls counts wanted left p us ui range alike some small tight some_left =
      let (m, bits, e, few, lt, own, last, same_tdi) =
        send_tms-SentTms {E = E} mpsse out_size tms tdi calls counts wanted left p us ui range alike
          some_left in
      let call = clock_tms bits (bit tdi p) (m + 1) in
      let size₁ : length (as_slice (calls ++ call ∷ [])) ≡ length (as_slice calls) + 3 =
        length-clock_tms calls bits (bit tdi p) (m + 1) in
      let (n, buf, e', le, tight', (len, u, carries), held) =
        stash_tdi-Ran {E = E} mpsse out_size tms tdi (p + (m + 1)) (left - (m + 1))
          (calls ++ call ∷ []) (bit tms (p + m)) us ui (omega arith) alike some small
          (omega arith) in
      let fits : n / 8 < length buf = omega arith in
      let size₂ : length (as_slice ((calls ++ call ∷ []) ++ tail_calls n buf)) ≤ out_size =
        (rw (length-tail_calls mpsse (calls ++ call ∷ []) n buf (omega arith))
          (tight_lem _ n out_size tight' (omega arith))) in
      let sized : (calls ++ call ∷ []) ++ tail_calls n buf ≡ calls ++ call ∷ tail_calls n buf =
        append_assoc calls (call ∷ []) (tail_calls n buf) in
      round_step calls counts wanted left p m n bits buf e e' few lt le fits some small
        (rw sized at size₂)
        (Clocks-round tms tdi p m n bits buf same_tdi own last (omega arith) carries held)
