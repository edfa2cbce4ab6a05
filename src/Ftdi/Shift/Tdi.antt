-- ===== src/Ftdi/Shift/Tdi.antt =====
-- The loop of `shift_chunks` that stashes TDI bits.
use xvc_rs.Prelude.{
  ℕ, zero, suc, ◌+◌, ◌-◌, ◌*◌, ◌/◌, ◌%◌, ◌^◌, ◌≤◌, ◌<◌, ◌≡◌, refl, ap, ◌∙◌, Bool, true, false, ◌&&◌,
  not, ◌==◌, ltb, le→ltb, ltb→lt, List, arith, Bytes, AllU8, Outcome, ok, ◌>>=◌, length, Bool-cases,
  inl, inr, set, replicate, length-replicate,
}
use xvc_rs.Ftdi.Bits.{same, same→eq, and→each}
use xvc_rs.Ftdi.Bits.Vector.{
  at, step, step-at, pin-at, bit, mask_next, mask_last, put, or_at-put, length-put, clear_at_lem,
  bit-zeros, zeros-AllU8,
}
use xvc_rs.Ftdi.Shift.Tms.{extend}
use xvc_rs.Ftdi.Shift.{Call, Run, run_more, run_bit, stash_tdi, room, Mpsse}
use xvc_rs.Ftdi.Shift.Carried.{running, run_eq, Carries, Carries-put, Carries-clear}

module _ {E : Type 0} (mpsse : Mpsse) (out_size : ℕ) (tms tdi : Bytes) where
  open mpsse use {as_slice}

  abbrev pub Ran : ℕ → ℕ → List Call → Bool → Outcome E Run → Type 0
  Ran p left calls state result =
      (n : ℕ) × (buf : Bytes) × (result ≡ ok (running p (left - n) n buf))
      × (n ≤ left)
      × (length (as_slice calls) + (n + 7) / 8 + 5 ≤ out_size + (1 - n))
      × Carries out_size (bit tdi) p n buf
      × ((i : ℕ) → i < n → bit tms (p + i) ≡ state)

  pub room_lem :
      (calls : List Call) (count reserve : ℕ)
      → reserve ≤ out_size
      → length (as_slice calls) + count / 8 < 2 ^ 16
      → room {E = E} mpsse out_size tms tdi calls count reserve
        ≡ ok (ltb (length (as_slice calls) + count / 8) (out_size - reserve))
  unfolding room
  room_lem calls count reserve h small =
      let e : (length (as_slice calls) + count / 8) % 2 ^ 16 ≡ length (as_slice calls) + count / 8 =
        omega arith in
      rw (le→ltb out_size reserve h, e) refl

  run_bit_lem :
      (p left n : ℕ) (buf : Bytes)
      → AllU8 tdi
      → (p + n) / 8 < length tdi
      → n / 8 + 1 < out_size
      → Carries out_size (bit tdi) p n buf
      → (buf' : Bytes) × (run_bit {E = E} mpsse out_size tms tdi (running p left n buf)
          ≡ ok (running p (left - 1) (n + 1) buf'))
        × Carries out_size (bit tdi) p (n + 1) buf'
  unfolding run_bit
  run_bit_lem p left n buf u inside fits (len, ub, bits) =
      let t = bit tdi (p + n) in
      let carries = Carries-put out_size (bit tdi) p n buf (omega arith) (len, ub, bits) in
      let here = pin-at {E = E} tdi (p + n) u inside in
      let next : step (at (p + n)) ≡ at (p + (n + 1)) =
        (let e : p + n + 1 ≡ p + (n + 1) = omega arith in step-at (p + n) ∙ rw e refl) in
      let wraps = mask_last (n % 8) (omega arith) in
      elim (Bool-cases (n % 8 == 7)) [
        | inl last ↦
            let index : n / 8 + 1 ≡ (n + 1) / 8 = ground arith in
            let whole : (n + 1) % 8 ≡ 0 = ground arith in
            (
              set (put buf n t) ((n + 1) / 8) 0,
              rw (here, or_at-put {E = E} buf n t (omega arith), next, wraps ∙ last)
                  (ap
                      (λ o. o >>= λ buf'. ok (record {
                        left = left - 1;
                        place = at (p + (n + 1));
                        count = n + 1;
                        mask = 1;
                        cmd_index = n / 8 + 1;
                        buf = buf';
                      }))
                      (clear_at_lem {E = E} (put buf n t) (n / 8 + 1)
                        (omega (arith, length-put buf n t)))
                    ∙ ap ok (rw index (run_eq p (left - 1) (n + 1) (rw whole refl) refl))),
              Carries-clear out_size (bit tdi) p (n + 1) (put buf n t) (omega arith) whole carries,
            )
        | inr more ↦
            let index : n / 8 ≡ (n + 1) / 8 = ground arith in
            let digit_next : n % 8 + 1 ≡ (n + 1) % 8 = ground arith in
            let mask = mask_next (n % 8) (ground arith) in
            (
              put buf n t,
              rw (here, or_at-put {E = E} buf n t (omega arith), next, wraps ∙ more, mask)
                  (ap ok (run_eq p (left - 1) (n + 1) (rw digit_next refl) index)),
              carries,
            )
      ]

  run_more_lem :
      (calls : List Call) (state : Bool) (p left n : ℕ) (buf : Bytes)
      → AllU8 tms
      → (0 < left → (p + n) / 8 < length tms)
      → 5 ≤ out_size
      → length (as_slice calls) + n / 8 < 2 ^ 16
      → run_more {E = E} mpsse out_size tms tdi calls state (running p left n buf)
        ≡ ok (
            not (left == 0)
            && (same (bit tms (p + n)) state
                && ltb (length (as_slice calls) + n / 8) (out_size - 5)))
  unfolding run_more
  run_more_lem calls state p left n buf u inside fits small = elim (Bool-cases (left == 0)) [
    | inl done ↦ rw done refl
    | inr more ↦
        rw (more, pin-at {E = E} tms (p + n) u (inside (ground arith)))
          (elim (Bool-cases (same (bit tms (p + n)) state)) [
            | inl alike ↦ rw alike (room_lem calls n 5 fits small)
            | inr other ↦ rw other refl
          ])
  ]

  stash_tdi_lem :
      (fuel p left n : ℕ) (calls : List Call) (state : Bool) (buf : Bytes)
      → AllU8 tms
      → AllU8 tdi
      → p + left ≤ length tms * 8
      → length tdi ≡ length tms
      → 7 ≤ out_size
      → out_size < 2 ^ 16
      → n ≤ left
      → left ≤ fuel + n
      → length (as_slice calls) + (n + 7) / 8 + 5 ≤ out_size + (1 - n)
      → Carries out_size (bit tdi) p n buf
      → ((i : ℕ) → i < n → bit tms (p + i) ≡ state)
      → Ran p left calls state
          (stash_tdi {E = E} mpsse out_size tms tdi fuel calls state (running p (left - n) n buf))
  unfolding stash_tdi
  stash_tdi_lem zero p left n calls state buf us ui range alike some small below enough tight
        carries held =
      let out : (left - n == 0) ≡ true = ground arith in
      (
        n,
        buf,
        rw
            (
              run_more_lem calls state p (left - n) n buf us (λ g. omega arith) (omega arith)
                  (omega arith),
              out,
            )
            refl,
        below,
        tight,
        carries,
        held,
      )
  stash_tdi_lem (suc fuel) p left n calls state buf us ui range alike some small below enough tight
        carries held =
      let more =
        run_more_lem calls state p (left - n) n buf us (λ g. omega arith) (omega arith)
          (omega arith) in
      elim (Bool-cases (
        not (left - n == 0)
        && (same (bit tms (p + n)) state
            && ltb (length (as_slice calls) + n / 8) (out_size - 5)))) [
              | inr stop ↦ (n, buf, rw (more, stop) refl, below, tight, carries, held)
              | inl go_on ↦
                  let facts : (not (left - n == 0) ≡ true)
                      × (same (bit tms (p + n)) state ≡ true)
                      × (ltb (length (as_slice calls) + n / 8) (out_size - 5) ≡ true) =
                    and→each go_on in
                  let some_left = facts.0 in
                  let has_room : length (as_slice calls) + n / 8 < out_size - 5 =
                    ltb→lt _ _ facts.2 in
                  let (buf', taken, carries') =
                    run_bit_lem p (left - n) n buf ui (ground arith) (omega arith) carries in
                  let less : left - n - 1 ≡ left - (n + 1) = omega arith in
                  rw (more, go_on, taken, less)
                    (stash_tdi_lem fuel p left (n + 1) calls state buf' us ui range alike some small
                      (ground arith) (omega arith) (omega arith) carries'
                      (extend (bit tms) p n state held (same→eq _ _ facts.1)))
            ]

  -- The loop as `shift_chunks` starts it.
  pub stash_tdi-Ran :
      (p left : ℕ) (calls : List Call) (state : Bool)
      → AllU8 tms
      → AllU8 tdi
      → p + left ≤ length tms * 8
      → length tdi ≡ length tms
      → 7 ≤ out_size
      → out_size < 2 ^ 16
      → length (as_slice calls) + 4 ≤ out_size
      → Ran p left calls state (
          stash_tdi {E = E} mpsse out_size tms tdi left calls state (record {
            left = left;
            place = at p;
            count = 0;
            mask = 1;
            cmd_index = 0;
            buf = set (replicate out_size 0) 0 0;
          }))
  stash_tdi-Ran p left calls state us ui range alike some small tight =
      let e : p + 0 ≡ p = omega arith in
      let zeros : Bytes = replicate out_size 0 in
      let clean : Carries out_size (bit tdi) p 0 (set zeros 0 0) =
        Carries-clear out_size (bit tdi) p 0 zeros (omega arith) refl (
          length-replicate {A = ℕ} out_size 0,
          zeros-AllU8 out_size,
          λ j. bit-zeros out_size j ∙ (let lo : ltb j 0 ≡ false = ground arith in rw lo refl),
        ) in
      let e' : left - 0 ≡ left = omega arith in
      rw (e, e') at
        (stash_tdi_lem left p left 0 calls state (set zeros 0 0) us ui range alike some small
          (omega arith) (omega arith) (omega arith) clean (λ i lt. absurd (omega arith)))
