-- ===== src/Ftdi/Shift/Got.antt =====
-- The bits that `shift_chunks` has put into `tdo`.
use xvc_rs.Prelude.{
  ℕ, ◌+◌, ◌/◌, ◌%◌, ◌≤◌, ◌<◌, ◌^◌, ◌≡◌, refl, sym, ap, ◌∙◌, Bool, true, false, ◌==◌, if◌then◌else◌,
  List, [], ◌∷◌, ◌++◌, arith, Bytes, AllU8, ok, length, Bool-cases, inl, inr, set,
}
use xvc_rs.Ftdi.Bits.Vector.{
  bit, mask_first, put, length-put, put-AllU8, bit-put, clear_at, clear_at_lem, bit-set-zero,
  length-set, set-AllU8,
}
use xvc_rs.Ftdi.Shift.Pins.{span, span_congr, span-append}

-- `tdo` has the bits `got` up to the `q`th, and zeros behind them to the end of the byte.
abbrev pub Got : ℕ → ℕ → List Bool → Bytes → Type 0
Got size q got tdo =
    (length tdo ≡ size)
    × AllU8 tdo
    × (span (bit tdo) 0 q ≡ got)
    × ((j : ℕ) → q ≤ j → j / 8 < (q + 7) / 8 → bit tdo j ≡ false)

pub Got-eq :
    (size : ℕ) {q q' : ℕ} {got got' : List Bool} (tdo : Bytes)
    → q ≡ q'
    → got ≡ got'
    → Got size q got tdo
    → Got size q' got' tdo
Got-eq size {q} {q'} {got} {got'} tdo e f all = rw (sym e, sym f) all

-- What `if tdo_bit == 1 { tdo[tdo_index] = 0 }` leaves.
abbrev pub cleaned : Bytes → ℕ → Bytes
cleaned tdo q = if q % 8 == 0 then set tdo (q / 8) 0 else tdo

pub cleaned_lem :
    {E : Type 0} (tdo : Bytes) (q : ℕ)
    → q / 8 < length tdo
    → (if 2 ^ (q % 8) == 1 then clear_at {E = E} tdo (q / 8) else ok tdo) ≡ ok (cleaned tdo q)
cleaned_lem {E} tdo q h = elim (Bool-cases (q % 8 == 0)) [
  | inl start ↦
      (let z : q % 8 ≡ 0 = ground arith in rw (start, z) (clear_at_lem {E = E} tdo (q / 8) h))
  | inr within ↦ rw (within, mask_first (q % 8) (omega arith) ∙ within) refl
]

pub Got-cleaned :
    (size q : ℕ) (got : List Bool) (tdo : Bytes)
    → q / 8 < size
    → Got size q got tdo
    → Got size q got (cleaned tdo q)
      × (bit (cleaned tdo q) q ≡ false)
      × ((j : ℕ) → q ≤ j → j / 8 ≡ q / 8 → bit (cleaned tdo q) j ≡ false)
Got-cleaned size q got tdo h (len, u, same, clean) = elim (Bool-cases (q % 8 == 0)) [
  | inl start ↦
      let old : (j : ℕ) → j < q → bit (set tdo (q / 8) 0) j ≡ bit tdo j = (λ j lt.
        let e : (j / 8 == q / 8) ≡ false = ground arith in
        bit-set-zero tdo (q / 8) j (omega arith) ∙ rw e refl) in
      let new : (j : ℕ) → q ≤ j → j / 8 ≡ q / 8 → bit (set tdo (q / 8) 0) j ≡ false = (λ j le g.
        let e : (j / 8 == q / 8) ≡ true = ground arith in
        bit-set-zero tdo (q / 8) j (omega arith) ∙ rw e refl) in
      rw start (
        (
          length-set tdo _ _ ∙ len,
          set-AllU8 tdo (q / 8) 0 u (omega arith),
          span_congr (bit (set tdo (q / 8) 0)) (bit tdo) 0 0 q (λ i lt. old (0 + i) (omega arith))
              ∙ same,
          λ j le lt. new j le (ground arith),
        ),
        new q (omega arith) refl,
        new,
      )
  | inr within ↦ rw within (
    (len, u, same, clean),
    clean q (omega arith) (ground arith),
    λ j le g. clean j le (ground arith),
  )
]

pub Got-put :
    (size q : ℕ) (got : List Bool) (tdo : Bytes) (t : Bool)
    → q / 8 < size
    → Got size q got tdo
    → bit tdo q ≡ false
    → ((j : ℕ) → q ≤ j → j / 8 ≡ q / 8 → bit tdo j ≡ false)
    → Got size (q + 1) (got ++ t ∷ []) (put tdo q t)
Got-put size q got tdo t h (len, u, same, clean) zero_here zeros = (
  length-put tdo q t ∙ len,
  put-AllU8 tdo q t u,
  sym (span-append (bit (put tdo q t)) 0 q 1)
      ∙ rw
          (span_congr (bit (put tdo q t)) (bit tdo) 0 0 q
              (λ i lt. let e : (0 + i == q) ≡ false = ground arith in bits (0 + i) ∙ rw e refl)
            ∙ same)
          (ap (λ b. got ++ b ∷ []) new),
  λ j le lt.
      let e : (j == q) ≡ false = ground arith in
      bits j ∙ rw e (zeros j (omega arith) (omega arith)),
)
  where
    bits : (j : ℕ) → bit (put tdo q t) j ≡ (if j == q then t else bit tdo j)
    bits j = bit-put tdo q j t u (omega arith) zero_here

    new : bit (put tdo q t) (0 + q) ≡ t
    new =
        (let e : 0 + q ≡ q = omega arith in
          let e' : (q == q) ≡ true = ground arith in rw e (bits q ∙ rw e' refl))
