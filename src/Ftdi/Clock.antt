-- ===== src/Ftdi/Clock.antt =====
-- The clock of xvc-server-usb/src/ftdi_server.rs: from a period to a divider and back.
use Prim.Native.Nat.{max}
use native.Mathlib.Nat.{
  le-div_iff_mul-le, div-le_of_le-mul, div-add-mod', mod-lt, div-mul-le_self, le_trans,
  mul-le-mul_left, mul_comm,
}
use native.Mathlib.Decide.{dec_lt}
use xvc_rs.Prelude.{
  ℕ, ◌+◌, ◌-◌, ◌*◌, ◌/◌, ◌%◌, ◌^◌, ◌≤◌, ◌<◌, ◌≡◌, refl, arith, ltb, ltb→le, ltb→lt, Bool-cases,
  ==_ne, inl, inr, ◌==◌, if◌then◌else◌, div_ceil, Outcome, ok, panic, ◌>>=◌,
}

abbrev pub ftdi_clock_rate : ℕ
ftdi_clock_rate = 60000000

-- `x.clamp(lo, hi)`
abbrev pub clamp : ℕ → ℕ → ℕ → ℕ
clamp x lo hi = if ltb x lo then lo else if ltb hi x then hi else x

-- `count`, before the register's value is taken.
unfoldable pub divider : ℕ → ℕ
divider frequency = clamp (div_ceil (ftdi_clock_rate / 2) (max frequency 1)) 1 0x10000

-- The register's value and the actual frequency.
unfoldable pub count_for_frequency : ℕ → ℕ × ℕ
count_for_frequency frequency =
    let count = divider frequency in
    let actual = ftdi_clock_rate / (2 * count) in (count - 1, actual)

-- `a / b`, which panics for a zero divisor.
abbrev pub checked_div {ℓ} : {E : Type ℓ} → ℕ → ℕ → Outcome E ℕ
checked_div a b = if b == 0 then panic else ok (a / b)

-- `set_clock_speed`: `write` sends the command that sets the register's value.
unfoldable pub set_clock_speed :
    {E H : Type 0} → (ℕ → H → Outcome E (Unit {0}) × H) → ℕ → H → Outcome E ℕ × H
set_clock_speed write frequency h =
    let (count, actual) = count_for_frequency frequency in
    let (sent, h') = write count h in (sent >>= λ _. ok actual, h')

unfoldable pub set_tck :
    {E H : Type 0} → (ℕ → H → Outcome E (Unit {0}) × H) → ℕ → H → Outcome E ℕ × H
set_tck write period_ns h =
    let (actual, h') = set_clock_speed write (1_000_000_000 / period_ns) h in
    if period_ns == 0 then (ok period_ns, h) else (actual >>= λ f. checked_div 1_000_000_000 f, h')

divider_bounds : (f : ℕ) → (1 ≤ divider f) × (divider f ≤ 0x10000)
unfolding divider
divider_bounds f = ground arith

-- For every requested frequency, the divider register's value that `count_for_frequency` gives fits
-- 16 bits, and the frequency lies between 457 Hz and 30 MHz.
pub count_for_frequency_bounds :
    (f : ℕ)
    → ((count_for_frequency f).0 < 2 ^ 16)
      × (457 ≤ (count_for_frequency f).1)
      × ((count_for_frequency f).1 ≤ 30000000)
unfolding count_for_frequency
count_for_frequency_bounds f =
    let (low, high) = divider_bounds f in
    (
      omega arith,
      (le-div_iff_mul-le (omega arith)).1 (omega arith),
      div-le_of_le-mul (2 * divider f) (omega arith),
    )

div_ceil_covers : (n f : ℕ) → 0 < f → n ≤ div_ceil n f * f
div_ceil_covers n f h = elim (Bool-cases (ltb 0 (n % f))) [
  | inl rest ↦ rw rest (omega (arith, div-add-mod' n f, mod-lt n h))
  | inr whole ↦ rw whole (omega (arith, div-add-mod' n f, ltb→le 0 (n % f) whole))
]

clamp_covers : (n f : ℕ) → 30000000 ≤ n * f → 458 ≤ f → 30000000 ≤ clamp n 1 0x10000 * f
clamp_covers n f e h = elim (Bool-cases (ltb n 1)) [
  | inl low ↦ rw low (grind arith)
  | inr enough ↦ elim (Bool-cases (ltb 0x10000 n)) [
    | inl high ↦ rw (enough, high) (omega arith)
    | inr fits ↦ rw (enough, fits) e
  ]
]

divider_covers : (f : ℕ) → 458 ≤ f → 30000000 ≤ divider f * f
unfolding divider
divider_covers f h =
    let max_one : max f 1 ≡ f = omega arith in
    rw max_one (clamp_covers (div_ceil 30000000 f) f (div_ceil_covers 30000000 f (omega arith)) h)

-- For a requested frequency of at least 458 Hz, the frequency that `count_for_frequency` sets is at
-- most the requested one.
pub count_for_frequency-le : (f : ℕ) → 458 ≤ f → (count_for_frequency f).1 ≤ f
unfolding count_for_frequency
count_for_frequency-le f h = div-le_of_le-mul (2 * divider f) (omega (arith, divider_covers f h))

-- A divisor that is not zero gives the quotient.
checked_div_lem {ℓ} : {E : Type ℓ} (a b : ℕ) → 0 < b → checked_div {E = E} a b ≡ ok (a / b)
checked_div_lem a b h = rw (==_ne b 0 (omega arith)) refl

div_ceil_least : (n f c : ℕ) → 0 < f → n ≤ f * c → div_ceil n f ≤ c
div_ceil_least n f c h le = elim (Bool-cases (ltb 0 (n % f))) [
  | inr whole ↦ rw whole (div-le_of_le-mul f le)
  | inl rest ↦ rw rest (elim (dec_lt (n / f) c) [
    | yes below ↦ omega arith
    | no above ↦ absurd (
        omega (
          arith,
          ltb→lt 0 (n % f) rest,
          div-add-mod' n f,
          mul-le-mul_left {m = c} {n = n / f} f (omega arith),
          mul_comm f (n / f),
        ))
  ])
]

-- The divider is the least one with which 30 MHz are brought down to the frequency.
divider_least : (f c : ℕ) → 458 ≤ f → 0 < c → 30000000 ≤ f * c → divider f ≤ c
unfolding divider
divider_least f c h pos le =
    let max_one : max f 1 ≡ f = omega arith in
    let least = div_ceil_least 30000000 f c (omega arith) le in rw max_one (ground arith)

-- For a period that is not zero and at most 2183406 ns, and where the adapter takes the command,
-- `set_tck` of the FTDI backend succeeds and answers with a period that is at least the one asked
-- for, although a shorter one may be closer; and one more than the divider register's value is the
-- least number by which 30 MHz have to be divided to be at most the frequency of the period asked
-- for, a whole number of Hz.
pub set_tck-ge :
    {E H : Type 0} (write : ℕ → H → Outcome E (Unit {0}) × H) (period_ns : ℕ) (h : H)
    → 0 < period_ns
    → period_ns ≤ 2183406
    → (write (count_for_frequency (1_000_000_000 / period_ns)).0 h).0 ≡ ok tt
    → (actual : ℕ) × ((set_tck write period_ns h).0 ≡ ok actual)
      × (period_ns ≤ actual)
      × (30_000_000
          ≤ ((count_for_frequency (1_000_000_000 / period_ns)).0 + 1) * (1_000_000_000 / period_ns))
      × ((c : ℕ)
          → 0 < c
          → 30_000_000 ≤ (1_000_000_000 / period_ns) * c
          → (count_for_frequency (1_000_000_000 / period_ns)).0 + 1 ≤ c)
unfolding set_tck set_clock_speed count_for_frequency
set_tck-ge write period_ns h lo hi sent =
    let f = 1_000_000_000 / period_ns in
    let (_, slow, _) = count_for_frequency_bounds f in
    let fast : 458 ≤ f = (le-div_iff_mul-le lo).1 (omega arith) in
    let one_more : divider f - 1 + 1 ≡ divider f = omega (arith, divider_bounds f) in
    (
      1_000_000_000 / (count_for_frequency f).1,
      rw (==_ne period_ns 0 (omega arith), sent) (checked_div_lem _ _ (omega arith)),
      (le-div_iff_mul-le (omega arith)).1 (
          le_trans (mul-le-mul_left period_ns (count_for_frequency-le f fast))
            (omega (arith, div-mul-le_self 1_000_000_000 period_ns))),
      rw one_more (divider_covers f fast),
      λ c pos le. rw one_more (divider_least f c fast pos le),
    )
