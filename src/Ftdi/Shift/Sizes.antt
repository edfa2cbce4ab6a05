-- ===== src/Ftdi/Shift/Sizes.antt =====
-- What `shift_chunks` leaves of the size of `tdo`.
use xvc_rs.Prelude.{
  ℕ, zero, suc, ◌+◌, ◌*◌, ◌++◌, ◌==◌, ◌≡◌, refl, ◌∙◌, Bool, true, false, if◌then◌else◌, ltb, Option,
  some, none, Bool-cases, inl, inr, List, [], ◌∷◌, Bytes, Outcome, ok, err, panic, ◌>>=◌, length,
  div_ceil, assert,
}
use xvc_rs.Ftdi.Bits.Vector.{Place, pin, or_at, clear_at, length-set}
use xvc_rs.Ftdi.Usb
use xvc_rs.Ftdi.Usb.{Pipes}
use xvc_rs.Ftdi.Shift.{send_immediate, Mpsse, Chunk, fill}
use xvc_rs.Ftdi.Shift.Chunks.{
  Rx, Shifted, take_bit, take_bits, receive, or_stop, transferred, exchange, shift_loop,
  shift_chunks,
}

-- A value, if there is one, has the property.
abbrev Holding : {E A : Type 0} → (A → Type 0) → Outcome E A → Type 0
Holding P (ok a) = P a
Holding P (err e) = Unit
Holding P panic = Unit

bind-Holding :
    {E A B : Type 0} (P : A → Type 0) (Q : B → Type 0) (m : Outcome E A) (f : A → Outcome E B)
    → Holding P m
    → ((a : A) → P a → Holding Q (f a))
    → Holding Q (m >>= f)
bind-Holding P Q (ok a) f h k = k a h
bind-Holding P Q (err e) f h k = tt
bind-Holding P Q panic f h k = tt

abbrev HasLength : ℕ → Bytes → Type 0
HasLength n v = length v ≡ n

abbrev Keeps : ℕ → Rx → Type 0
Keeps n r = length r.tdo ≡ n

module _ (E : Type 0) where
  clear_at-HasLength :
      (n : ℕ) (v : Bytes) (i : ℕ) → length v ≡ n → Holding (HasLength n) (clear_at {E = E} v i)
  unfolding clear_at
  clear_at-HasLength n v i e = elim (Bool-cases (ltb i (length v))) [
    | inl inside ↦ rw inside (length-set v i 0 ∙ e)
    | inr out ↦ rw out tt
  ]

  or_at-HasLength :
      (n : ℕ) (v : Bytes) (i mask : ℕ)
      → length v ≡ n
      → Holding (HasLength n) (or_at {E = E} v i mask)
  unfolding or_at
  or_at-HasLength n v i mask e = elim (Bool-cases (ltb i (length v))) [
    | inl inside ↦ rw inside (length-set v i _ ∙ e)
    | inr out ↦ rw out tt
  ]

  if-HasLength :
      (n : ℕ) (b : Bool) (v : Bytes) (o : Outcome E Bytes)
      → length v ≡ n
      → Holding (HasLength n) o
      → Holding (HasLength n) (if b then o else ok v)
  if-HasLength n true v o e h = h
  if-HasLength n false v o e h = e

  anything : (o : Outcome E Bool) → Holding (λ _. Unit {0}) o
  anything (ok a) = tt
  anything (err e) = tt
  anything panic = tt

  module _ (rx : Bytes) where
    take_bit-Keeps :
        (n count : ℕ) (r : Rx) → Keeps n r → Holding (Keeps n) (take_bit {E = E} rx count r)
    unfolding take_bit
    take_bit-Keeps n count r e =
        bind-Holding (HasLength n) (Keeps n) _ _
          (if-HasLength n (r.place.mask == 1) r.tdo _ e
            (clear_at-HasLength n r.tdo r.place.index e))
          (λ tdo₁ e₁.
            bind-Holding (λ _. Unit {0}) (Keeps n) _ _
              (anything (pin rx (record { index = r.rx_index; mask = r.rx_bit })))
              (λ t _.
                bind-Holding (HasLength n) (Keeps n) _ _
                  (if-HasLength n t tdo₁ _ e₁
                    (or_at-HasLength n tdo₁ r.place.index r.place.mask e₁))
                  (λ tdo₂ e₂. e₂)))

    take_bits-Keeps :
        (n count : ℕ) (r : Rx) → Keeps n r → Holding (Keeps n) (take_bits {E = E} rx count r)
    unfolding take_bits
    take_bits-Keeps n zero r e = e
    take_bits-Keeps n (suc count) r e =
        bind-Holding (Keeps n) (Keeps n) (take_bit rx count r) (take_bits rx count)
          (take_bit-Keeps n count r e) (take_bits-Keeps n count)

    receive-Keeps :
        (n : ℕ) (counts : List ℕ) (r : Rx)
        → Keeps n r
        → Holding (Keeps n) (receive {E = E} rx counts r)
    unfolding receive
    receive-Keeps n [] r e = e
    receive-Keeps n (count ∷ counts) r e =
        bind-Holding (Keeps n) (Keeps n) (take_bits rx count _) (receive rx counts)
          (take_bits-Keeps n count _ e) (receive-Keeps n counts)

-- `tdo` has the length `n`.
unfoldable Leaves : {H E : Type 0} → ℕ → Shifted H E → Type 0
Leaves n r = length r.1 ≡ n

module _ {H E : Type 0} (n : ℕ) where
  or_stop-Leaves :
      {A : Type 0} (P : A → Type 0) (o : Outcome E A) (tdo : Bytes) (h : H) (next : A → Shifted H E)
      → length tdo ≡ n
      → Holding P o
      → ((a : A) → P a → Leaves n (next a))
      → Leaves n (or_stop o tdo h next)
  unfolding or_stop Leaves
  or_stop-Leaves P (ok a) tdo h next e p k = k a p
  or_stop-Leaves P (err x) tdo h next e p k = e
  or_stop-Leaves P panic tdo h next e p k = e

  transferred-Leaves :
      {A : Type 0} (o : Option (Outcome E A × H)) (tdo : Bytes) (h : H) (next : A → H → Shifted H E)
      → length tdo ≡ n
      → ((a : A) (h' : H) → Leaves n (next a h'))
      → Leaves n (transferred o tdo h next)
  unfolding transferred or_stop Leaves
  transferred-Leaves none tdo h next e k = e
  transferred-Leaves (some (ok a, h')) tdo h next e k = k a h'
  transferred-Leaves (some (err x, h')) tdo h next e k = e
  transferred-Leaves (some (panic, h')) tdo h next e k = e

leaves : {H E : Type 0} (n : ℕ) (r : Shifted H E) → length r.1 ≡ n → Leaves n r
unfolding Leaves
leaves n r e = e

length-Leaves : {H E : Type 0} (n : ℕ) (r : Shifted H E) → Leaves n r → length r.1 ≡ n
unfolding Leaves
length-Leaves n r e = e

always : {E A : Type 0} (o : Outcome E A) → Holding (λ _. Unit {0}) o
always (ok a) = tt
always (err e) = tt
always panic = tt

module _ {H E : Type 0} (handle : Pipes H E) (mpsse : Mpsse) (out_size in_size : ℕ)
    (tms tdi : Bytes) where
  open mpsse use {as_slice}

  exchange-Leaves :
      (n : ℕ) (c : Chunk) (tdo : Bytes) (place : Place) (h : H)
      (next : Bytes → Place → H → Shifted H E)
      → length tdo ≡ n
      → ((tdo' : Bytes) (place' : Place) (h' : H)
          → length tdo' ≡ n
          → Leaves n (next tdo' place' h'))
      → Leaves n (exchange handle mpsse out_size in_size tms tdi c tdo place h next)
  unfolding exchange
  exchange-Leaves n c tdo place h next e k =
      let command = as_slice (c.calls ++ send_immediate ∷ []) in
      transferred-Leaves n {A = Unit {0}} (Usb.write handle (length command) command h) tdo h _ e
        (λ _ h₁.
          transferred-Leaves n (Usb.read handle in_size c.wanted ((c.wanted + 1) * 1024) h₁) tdo h₁
            _ e
            (λ rx h₂.
              or_stop-Leaves n (Keeps n) _ tdo h₂ _ e
                (receive-Keeps E rx n c.bitcounts
                  (record { tdo = tdo; place = place; rx_index = 0; rx_bit = 1 }) e)
                (λ r e'. k r.tdo r.place h₂ e')))

  shift_loop-Leaves :
      (n fuel left : ℕ) (place : Place) (tdo : Bytes) (tdo_place : Place) (h : H)
      → length tdo ≡ n
      → Leaves n (shift_loop handle mpsse out_size in_size tms tdi fuel left place tdo tdo_place h)
  unfolding shift_loop
  shift_loop-Leaves n zero left place tdo tdo_place h e = elim (Bool-cases (left == 0)) [
    | inl done ↦ rw done (leaves n _ e)
    | inr more ↦ rw more (leaves n _ e)
  ]
  shift_loop-Leaves n (suc fuel) left place tdo tdo_place h e = elim (Bool-cases (left == 0)) [
    | inl done ↦ rw done (leaves n _ e)
    | inr more ↦
        let filled =
          fill {E = E} mpsse out_size tms tdi left
            (record { calls = []; bitcounts = []; wanted = 0; left = left; place = place }) in
        rw more (
          or_stop-Leaves n (λ _. Unit {0}) filled tdo h _ e (always filled)
            (λ c _.
              exchange-Leaves n c tdo tdo_place h _ e
                (λ tdo' place' h' e'. shift_loop-Leaves n fuel c.left c.place tdo' place' h' e')))
  ]

  -- For all vectors and numbers of bits, fitting or not, and for all that the adapter does,
  -- `shift_chunks` leaves `tdo` as long as it was.
  pub length-shift_chunks :
      (num_bits : ℕ) (tdo : Bytes) (h : H)
      → length (shift_chunks handle mpsse out_size in_size tms tdi num_bits tdo h).1 ≡ length tdo
  unfolding shift_chunks
  length-shift_chunks num_bits tdo h =
      let sized = assert {E = E} (length tdi == length tms) >>= λ _.
      assert (div_ceil num_bits 8 == length tdi) in
      length-Leaves (length tdo) _ (
        or_stop-Leaves (length tdo) (λ _. Unit {0}) sized tdo h _ refl (always sized)
          (λ _ _. shift_loop-Leaves (length tdo) num_bits num_bits _ tdo _ h refl))
