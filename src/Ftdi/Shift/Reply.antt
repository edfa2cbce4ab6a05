-- ===== src/Ftdi/Shift/Reply.antt =====
-- Where the bits of a reply are read, in the loop of `shift_chunks` on a reply.
use xvc_rs.Prelude.{
  ℕ, ◌+◌, ◌-◌, ◌*◌, ◌/◌, ◌%◌, ◌<◌, ◌^◌, ◌≡◌, refl, ◌∙◌, true, false, ◌==◌, if◌then◌else◌, ltb,
  arith, Bytes, Bool-cases, inl, inr, div_ceil, div_ceil-eight,
}
use xvc_rs.Ftdi.Bits.Vector.{at, mask_last, mask_next}
use xvc_rs.Ftdi.Shift.Chunks.{Rx, first_mask}

-- Where the `i`th bit of a reply of `count` bits is in its byte.
abbrev pub shift : ℕ → ℕ → ℕ
shift count i = (if ltb (count - i / 8 * 8) 8 then 8 - (count - i / 8 * 8) else 0) + i % 8

pub shift-lt : (count i : ℕ) → i < count → shift count i < 8
shift-lt count i lt = ground arith

-- The variables that say where the next bit is read, when `i` bits have been.
abbrev pub rx_at : ℕ → ℕ → ℕ → Bytes → ℕ → Rx
rx_at index count i tdo q = record {
  tdo = tdo;
  place = at q;
  rx_index = if ltb i count then index + i / 8 else index + div_ceil count 8;
  rx_bit = if ltb i count then 2 ^ shift count i else 0x80;
}

pub first_mask-shift : (count : ℕ) → 0 < count → first_mask count ≡ 2 ^ shift count 0
first_mask-shift count pos = elim (Bool-cases (ltb count 8)) [
  | inl few ↦ (let e : shift count 0 ≡ 8 - count = ground arith in rw (few, e) refl)
  | inr many ↦ (let e : shift count 0 ≡ 0 = ground arith in rw (many, e) refl)
]

rx_eq :
    (tdo : Bytes) (q : ℕ) {i i' m m' : ℕ}
    → i ≡ i'
    → m ≡ m'
    → ◌≡◌ {A = Rx}
        (record { tdo = tdo; place = at q; rx_index = i; rx_bit = m })
        (record { tdo = tdo; place = at q; rx_index = i'; rx_bit = m' })
rx_eq tdo q e f = λ t. record { tdo = tdo; place = at q; rx_index = e t; rx_bit = f t }

-- How they go on behind a bit.
pub rx_next :
    (index count i : ℕ) (tdo : Bytes) (q : ℕ)
    → i < count
    → ◌≡◌ {A = Rx}
        (record {
          tdo = tdo;
          place = at q;
          rx_index = if 2 ^ shift count i == 0x80 then index + i / 8 + 1 else index + i / 8;
          rx_bit =
              if 2 ^ shift count i == 0x80
              then (if count - (i + 1) == 0
                  then 2 ^ shift count i
                  else first_mask (count - (i + 1)))
              else 2 ^ shift count i * 2 % 256;
        })
        (rx_at index count (i + 1) tdo q)
rx_next index count i tdo q lt = elim (Bool-cases (ltb (i + 1) count)) [
  | inr last ↦
      let e : shift count i ≡ 7 = ground arith in
      let z : (count - (i + 1) == 0) ≡ true = ground arith in
      rw (e, z, last) (rx_eq tdo q (rw (div_ceil-eight count) (ground arith)) refl)
  | inl more ↦ elim (Bool-cases (shift count i == 7)) [
    | inl wraps ↦
        let e : shift count i ≡ 7 = ground arith in
        let z : (count - (i + 1) == 0) ≡ false = ground arith in
        let whole : (i + 1) / 8 ≡ i / 8 + 1 = ground arith in
        let same : shift count (i + 1) ≡ shift (count - (i + 1)) 0 = ground arith in
        rw (e, z, more)
          (rx_eq tdo q (omega arith)
            (first_mask-shift (count - (i + 1)) (ground arith) ∙ rw same refl))
    | inr goes_on ↦
        let e : shift count i + 1 ≡ shift count (i + 1) = ground arith in
        let within : (i + 1) / 8 ≡ i / 8 = ground arith in
        rw (mask_last (shift count i) (shift-lt count i lt) ∙ goes_on, more)
          (rx_eq tdo q (omega arith) (mask_next (shift count i) (ground arith) ∙ rw e refl))
  ]
]
