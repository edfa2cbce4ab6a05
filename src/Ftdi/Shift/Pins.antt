-- ===== src/Ftdi/Shift/Pins.antt =====
-- What the calls on a builder clock out on the TDI and the TMS pin, and the bits that reply to them.
use xvc_rs.Prelude.{
  ℕ, zero, suc, ◌+◌, ◌-◌, ◌*◌, ◌/◌, ◌%◌, ◌<◌, ◌≡◌, refl, sym, ap, ◌∙◌, Bool, List, [], ◌∷◌, ◌++◌,
  append_assoc, arith, Bytes, length, replicate, ltb, if◌then◌else◌, div_ceil,
}
use xvc_rs.Ftdi.Bits.{digit}
use xvc_rs.Ftdi.Bits.Vector.{bit, byte_at}
use xvc_rs.Ftdi.Shift.{Call, clock_tms, clock_data, clock_bits, send_immediate}

-- `f p`, `f (p + 1)`, …, `n` values in all.
abbrev pub span {ℓ} : {A : Type ℓ} → (ℕ → A) → ℕ → ℕ → List A
span f p zero = []
span f p (suc n) = f p ∷ span f (p + 1) n

module _ {ℓ} {A : Type ℓ} where
  pub span_congr :
      (f g : ℕ → A) (p q n : ℕ)
      → ((i : ℕ) → i < n → f (p + i) ≡ g (q + i))
      → span f p n ≡ span g q n
  span_congr f g p q zero h = refl
  span_congr f g p q (suc n) h =
      let first : f p ≡ g q =
        (let e : p + 0 ≡ p = omega arith in
          let e' : q + 0 ≡ q = omega arith in rw e at (rw e' at (h 0 (omega arith)))) in
      rw first (
        ap (λ l. g q ∷ l)
          (span_congr f g (p + 1) (q + 1) n (λ i lt.
            let e : p + 1 + i ≡ p + suc i = omega arith in
            let e' : q + 1 + i ≡ q + suc i = omega arith in rw (e, e') (h (suc i) (omega arith)))))

  pub span-append : (f : ℕ → A) (p m n : ℕ) → span f p m ++ span f (p + m) n ≡ span f p (m + n)
  span-append f p zero n =
      let e : p + 0 ≡ p = omega arith in let e' : 0 + n ≡ n = omega arith in rw (e, e') refl
  span-append f p (suc m) n =
      let e : p + suc m ≡ p + 1 + m = omega arith in
      let e' : suc m + n ≡ suc (m + n) = omega arith in
      rw (e, e') (ap (λ l. f p ∷ l) (span-append f (p + 1) m n))

  pub span_const :
      (f : ℕ → A) (a : A) (p n : ℕ) → ((i : ℕ) → i < n → f (p + i) ≡ a) → span f p n ≡ replicate n a
  span_const f a p zero h = refl
  span_const f a p (suc n) h =
      let first : f p ≡ a = (let e : p + 0 ≡ p = omega arith in rw e at (h 0 (omega arith))) in
      rw first (
        ap (λ l. a ∷ l)
          (span_const f a (p + 1) n (λ i lt.
            let e : p + 1 + i ≡ p + suc i = omega arith in rw e (h (suc i) (omega arith)))))

  pub length-span : (f : ℕ → A) (p n : ℕ) → length (span f p n) ≡ n
  length-span f p zero = refl
  length-span f p (suc n) = ap suc (length-span f (p + 1) n)

-- The bits of one call on the TDI pin: held through a TMS command, and shifted by the others.
abbrev pub tdi_bits : Call → List Bool
tdi_bits (clock_tms bits tdi n) = replicate n tdi
tdi_bits (clock_data values) = span (bit values) 0 (length values * 8)
tdi_bits (clock_bits bits n) = span (digit bits) 0 n
tdi_bits send_immediate = []

abbrev pub clocked_tdi : List Call → List Bool
clocked_tdi [] = []
clocked_tdi (c ∷ calls) = tdi_bits c ++ clocked_tdi calls

-- The bits of one call on the TMS pin: shifted by a TMS command, and held through the others.
abbrev pub tms_pin : Bool → Call → List Bool
tms_pin held (clock_tms bits tdi n) = span (digit bits) 0 n
tms_pin held (clock_data values) = replicate (length values * 8) held
tms_pin held (clock_bits bits n) = replicate n held
tms_pin held send_immediate = []

-- What a TMS command leaves on the pin: the bit behind those that it clocks, for which the source
-- duplicates the last one.
abbrev pub held_after : Bool → Call → Bool
held_after held (clock_tms bits tdi n) = digit bits n
held_after held (clock_data values) = held
held_after held (clock_bits bits n) = held
held_after held send_immediate = held

abbrev pub clocked_tms : Bool → List Call → List Bool
clocked_tms held [] = []
clocked_tms held (c ∷ calls) = tms_pin held c ++ clocked_tms (held_after held c) calls

abbrev pub held_by : Bool → List Call → Bool
held_by held [] = held
held_by held (c ∷ calls) = held_by (held_after held c) calls

pub clocked_tdi-append :
    (cs ds : List Call) → clocked_tdi (cs ++ ds) ≡ clocked_tdi cs ++ clocked_tdi ds
clocked_tdi-append [] ds = refl
clocked_tdi-append (c ∷ cs) ds =
    ap (λ l. tdi_bits c ++ l) (clocked_tdi-append cs ds)
    ∙ sym (append_assoc (tdi_bits c) (clocked_tdi cs) (clocked_tdi ds))

pub clocked_tms-append :
    (held : Bool) (cs ds : List Call)
    → clocked_tms held (cs ++ ds) ≡ clocked_tms held cs ++ clocked_tms (held_by held cs) ds
clocked_tms-append held [] ds = refl
clocked_tms-append held (c ∷ cs) ds =
    ap (λ l. tms_pin held c ++ l) (clocked_tms-append (held_after held c) cs ds)
    ∙ sym (append_assoc (tms_pin held c) (clocked_tms (held_after held c) cs) _)

-- What the device replies to a call: a bit for each that the call clocks.
abbrev pub reply_count : Call → List ℕ
reply_count (clock_tms bits tdi n) = n ∷ []
reply_count (clock_data values) = length values * 8 ∷ []
reply_count (clock_bits bits n) = n ∷ []
reply_count send_immediate = []

abbrev pub reply_counts : List Call → List ℕ
reply_counts [] = []
reply_counts (c ∷ calls) = reply_count c ++ reply_counts calls

pub reply_counts-append :
    (cs ds : List Call) → reply_counts (cs ++ ds) ≡ reply_counts cs ++ reply_counts ds
reply_counts-append [] ds = refl
reply_counts-append (c ∷ cs) ds =
    ap (λ l. reply_count c ++ l) (reply_counts-append cs ds)
    ∙ sym (append_assoc (reply_count c) (reply_counts cs) (reply_counts ds))

-- The bit that a reply of `count` bits has in its `i`th place, from its byte `index` on: whole bytes
-- have it there, and a last byte of fewer bits has them at its upper end.
unfoldable pub reply_bit : Bytes → ℕ → ℕ → ℕ → Bool
reply_bit rx index count i =
    let left = count - i / 8 * 8 in
    digit (byte_at rx (index + i / 8)) ((if ltb left 8 then 8 - left else 0) + i % 8)

-- The bits of the replies, one behind the other, each from a byte of its own.
abbrev pub replies : Bytes → ℕ → List ℕ → List Bool
replies rx index [] = []
replies rx index (count ∷ counts) =
    span (reply_bit rx index count) 0 count ++ replies rx (index + div_ceil count 8) counts
