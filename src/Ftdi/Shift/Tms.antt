-- ===== src/Ftdi/Shift/Tms.antt =====
-- The loop of `shift_chunks` that stashes TMS bits, and its command.
use Prim.Native.Nat.{bit_or}
use native.Mathlib.Decide.{dec_lt}
use xvc_rs.Prelude.{
  ℕ, zero, suc, ◌+◌, ◌-◌, ◌*◌, ◌/◌, ◌%◌, ◌^◌, ◌≤◌, ◌<◌, ◌≡◌, refl, sym, ap, ◌∙◌, Bool, true, false,
  ◌&&◌, ◌||◌, not, ◌==◌, if◌then◌else◌, ltb, ltb→lt, List, [], ◌∷◌, ◌++◌, arith, Bytes, AllU8,
  Outcome, ok, length, Bool-cases, inl, inr,
}
use xvc_rs.Ftdi.Bits.{
  digit, digit-or_if, or_if-lt, same, same→eq, every, every_sound, or_false, zero-digit, grow,
  and→left, and→right,
}
use xvc_rs.Ftdi.Bits.Vector.{at, step, step-at, pin-at, bit, mask_next}
use xvc_rs.Ftdi.Shift.{Stash, Chunk, Call, clock_tms, send_tms, stash_tms, stash_more, Mpsse}

-- The low `n` bits of a byte are those of `f` from `p` on, and the others are not set.
abbrev pub Holds : (ℕ → Bool) → ℕ → ℕ → ℕ → Type 0
Holds f p n bits = (bits < 256) × ((j : ℕ) → j < 8 → digit bits j ≡ (ltb j n && f (p + j)))

Holds-or :
    (f : ℕ → Bool) (p n bits : ℕ)
    → n < 8
    → Holds f p n bits
    → Holds f p (n + 1) (bit_or bits (if f (p + n) then 2 ^ n else 0))
Holds-or f p n bits lt (small, h) = (or_if-lt bits n (f (p + n)) small lt, next)
  where
    next :
        (j : ℕ)
        → j < 8
        → digit (bit_or bits (if f (p + n) then 2 ^ n else 0)) j ≡ (ltb j (n + 1) && f (p + j))
    next j g =
        digit-or_if bits n j (f (p + n)) small lt g
        ∙ (ap (λ x. (j == n && f (p + n)) || x) (h j g) ∙ sym (grow f p n j (f (p + n)) refl))

pub extend :
    (f : ℕ → Bool) (p n : ℕ) (a : Bool)
    → ((i : ℕ) → i < n → f (p + i) ≡ a)
    → f (p + n) ≡ a
    → (i : ℕ) → i < n + 1
    → f (p + i) ≡ a
extend f p n a h e i lt = elim (dec_lt i n) [
  | yes below ↦ h i below
  | no last ↦ (let same : i ≡ n = omega arith in rw same e)
]

module _ {E : Type 0} (mpsse : Mpsse) (out_size : ℕ) (tms tdi : Bytes) where
  -- What the loop leaves that starts at `p` with `left` bits to go and `first` on the TDI pin.
  abbrev pub Stashed : ℕ → ℕ → Bool → Outcome E Stash → Type 0
  Stashed p left first result =
      (n : ℕ) × (bits : ℕ) × (result
        ≡ ok (record {
          tms_bits = bits;
          tms_bit = if bit tms (p + n) then 2 ^ n else 0;
          count = n + 1;
          place = at (p + (n + 1));
        }))
      × (n < 6)
      × (n < left)
      × Holds (bit tms) p (n + 1) bits
      × ((i : ℕ) → i < n + 1 → bit tdi (p + i) ≡ first)

  stash_more_lem :
      (first : Bool) (left n p : ℕ)
      → AllU8 tdi
      → (n < left → p / 8 < length tdi)
      → stash_more {E = E} mpsse out_size tms tdi first left n (at p)
        ≡ ok (ltb n 6 && (ltb n left && same (bit tdi p) first))
  unfolding stash_more
  stash_more_lem first left n p u inside = elim (Bool-cases (ltb n 6)) [
    | inr done ↦ rw done refl
    | inl few ↦ elim (Bool-cases (ltb n left)) [
      | inr done ↦ rw (few, done) refl
      | inl more ↦ rw (few, more) (rw (pin-at {E = E} tdi p u (inside (ltb→lt n left more))) refl)
    ]
  ]

  stash_tms_lem :
      (fuel n p left bits : ℕ) (first : Bool)
      → AllU8 tms
      → AllU8 tdi
      → p + left ≤ length tms * 8
      → length tdi ≡ length tms
      → fuel + n ≡ 6
      → n < 6
      → n < left
      → Holds (bit tms) p n bits
      → ((i : ℕ) → i < n + 1 → bit tdi (p + i) ≡ first)
      → Stashed p left first
          (stash_tms {E = E} mpsse out_size tms tdi fuel first left (at (p + n)) (2 ^ n) bits n)
  unfolding stash_tms
  stash_tms_lem zero n p left bits first us ui room same_size f few lt holds alike =
      absurd (omega arith)
  stash_tms_lem (suc fuel) n p left bits first us ui room same_size f few lt holds alike =
      let here = pin-at {E = E} tms (p + n) us (omega arith) in
      let next : step (at (p + n)) ≡ at (p + (n + 1)) =
        (let e : p + n + 1 ≡ p + (n + 1) = omega arith in step-at (p + n) ∙ rw e refl) in
      let more = stash_more_lem first left (n + 1) (p + (n + 1)) ui (λ g. omega arith) in
      let mask : 2 ^ n * 2 % 256 ≡ 2 ^ (n + 1) = mask_next n (omega arith) in
      let holds' = Holds-or (bit tms) p n bits (omega arith) holds in
      elim (Bool-cases
        (ltb (n + 1) 6 && (ltb (n + 1) left && same (bit tdi (p + (n + 1))) first))) [
          | inr stop ↦ (
            n,
            bit_or bits (if bit tms (p + n) then 2 ^ n else 0),
            rw (here, next, more, stop) refl,
            few,
            lt,
            holds',
            alike,
          )
          | inl go_on ↦
              rw (here, next, more, go_on, mask)
                (stash_tms_lem fuel (n + 1) p left
                  (bit_or bits (if bit tms (p + n) then 2 ^ n else 0)) first us ui room same_size
                  (omega arith) (ltb→lt _ _ (and→left _ _ go_on))
                  (ltb→lt _ _ (and→left _ _ (and→right _ _ go_on))) holds'
                  (extend (bit tdi) p (n + 1) first alike
                    (same→eq _ _ (and→right _ _ (and→right _ _ go_on)))))
        ]

  -- The loop as `shift_chunks` starts it.
  pub stash_tms-Stashed :
      (p left : ℕ)
      → AllU8 tms
      → AllU8 tdi
      → p + left ≤ length tms * 8
      → length tdi ≡ length tms
      → 0 < left
      → Stashed p left
          (bit tdi p)
          (stash_tms {E = E} mpsse out_size tms tdi 6 (bit tdi p) left (at p) 1 0 0)
  stash_tms-Stashed p left us ui room same_size some_left =
      let e : p + 0 ≡ p = omega arith in
      rw e at (
        stash_tms_lem 6 0 p left 0 (bit tdi p) us ui room same_size (omega arith) (omega arith)
          some_left
          (
            omega arith,
            λ j g. zero-digit j g ∙ (let lo : ltb j 0 ≡ false = ground arith in rw lo refl),
          )
          (λ i lt. let z : i ≡ 0 = omega arith in rw (z, e) refl))

-- The chunk with the calls `calls`, at the `p`th bit.
abbrev pub chunk : List Call → List ℕ → ℕ → ℕ → ℕ → Chunk
chunk calls counts wanted left p = record {
  calls = calls;
  bitcounts = counts;
  wanted = wanted;
  left = left;
  place = at p;
}

doubled :
    (t : Bool) (n : ℕ) → n < 6 → (if t then 2 ^ n else 0) * 2 % 256 ≡ (if t then 2 ^ (n + 1) else 0)
doubled true n h = mask_next n (omega arith)
doubled false n h = refl

power_table : every 6 (λ k. not (2 ^ k == 0)) ≡ true
unfolding every
power_table = refl

state_lem : (t : Bool) (n : ℕ) → n < 6 → not ((if t then 2 ^ n else 0) == 0) ≡ t
state_lem true n h = every_sound 6 (λ k. not (2 ^ k == 0)) n power_table h
state_lem false n h = refl

-- `tms_bits |= tms_bit << 1` leaves the bits of a stash, and its last one once more.
module _ (f : ℕ → Bool) (p n bits : ℕ) (few : n < 6) (holds : Holds f p (n + 1) bits) where
  abbrev doubled_bits : ℕ
  doubled_bits = bit_or bits (if f (p + n) then 2 ^ (n + 1) else 0)

  doubled_bits-digit : (j : ℕ) → j < n + 1 → digit doubled_bits j ≡ f (p + j)
  doubled_bits-digit j lt =
      let no : (j == n + 1) ≡ false = ground arith in
      let yes_ : ltb j (n + 1) ≡ true = ground arith in
      digit-or_if bits (n + 1) j (f (p + n)) holds.0 (omega arith) (omega arith)
      ∙ rw (no, holds.1 j (omega arith), yes_) refl

  doubled_bits-last : digit doubled_bits (n + 1) ≡ f (p + n)
  doubled_bits-last =
      let self : (n + 1 == n + 1) ≡ true = ground arith in
      let lo : ltb (n + 1) (n + 1) ≡ false = ground arith in
      digit-or_if bits (n + 1) (n + 1) (f (p + n)) holds.0 (omega arith) (omega arith)
      ∙ rw (self, holds.1 (n + 1) (omega arith), lo) (or_false (f (p + n)))

module _ {E : Type 0} (mpsse : Mpsse) (out_size : ℕ) (tms tdi : Bytes) where
  -- The command for `n + 1` bits from `p` on, and the state it leaves on the TMS pin.
  abbrev pub SentTms : List Call → List ℕ → ℕ → ℕ → ℕ → Outcome E (Chunk × Bool) → Type 0
  SentTms calls counts wanted left p result =
      (n : ℕ) × (bits : ℕ) × (result
        ≡ ok (
          chunk (calls ++ clock_tms bits (bit tdi p) (n + 1) ∷ []) (counts ++ (n + 1) ∷ [])
              (wanted + 1) (left - (n + 1)) (p + (n + 1)),
          bit tms (p + n),
        ))
      × (n < 6)
      × (n < left)
      × ((j : ℕ) → j < n + 1 → digit bits j ≡ bit tms (p + j))
      × (digit bits (n + 1) ≡ bit tms (p + n))
      × ((i : ℕ) → i < n + 1 → bit tdi (p + i) ≡ bit tdi p)

  pub send_tms-SentTms :
      (calls : List Call) (counts : List ℕ) (wanted left p : ℕ)
      → AllU8 tms
      → AllU8 tdi
      → p + left ≤ length tms * 8
      → length tdi ≡ length tms
      → 0 < left
      → SentTms calls counts wanted left p
          (send_tms {E = E} mpsse out_size tms tdi (chunk calls counts wanted left p))
  unfolding send_tms
  send_tms-SentTms calls counts wanted left p us ui range alike some_left =
      let (n, bits, e, few, lt, holds, same_tdi) =
        stash_tms-Stashed {E = E} mpsse out_size tms tdi p left us ui range alike some_left in
      let fits : ltb left (n + 1) ≡ false = ground arith in
      (
        n,
        doubled_bits (bit tms) p n bits few holds,
        rw
            (
              pin-at {E = E} tdi p ui (omega arith),
              e,
              fits,
              doubled (bit tms (p + n)) n few,
              state_lem (bit tms (p + n)) n few,
            )
            refl,
        few,
        lt,
        doubled_bits-digit (bit tms) p n bits few holds,
        doubled_bits-last (bit tms) p n bits few holds,
        same_tdi,
      )
