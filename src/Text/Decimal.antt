-- ===== src/Text/Decimal.antt =====
-- Decimal numbers, printed and read.
use native.Mathlib.Nat.{pow-suc}
use mathlib.Core.List.{cons-ne-nil}
use xvc_rs.Prelude.{
  ℕ, zero, suc, ◌+◌, ◌/◌, ◌%◌, ◌^◌, ◌≤◌, ◌<◌, ◌≡◌, ◌≢◌, refl, ◌∙◌, ap, inl, inr, [], ◌∷◌, arith,
  Bytes, All, ok, ltb, ltb→lt, Bool-cases,
}
use xvc_rs.Text.{scan_uint, parse_uint, decimal_onto, decimal}

abbrev pub IsDigit : ℕ → Type 0
IsDigit c = (b'0' ≤ c) × (c ≤ b'9')

scan_last :
    (max n : ℕ) (out : Bytes)
    → n ≤ max
    → scan_uint max ((b'0' + n % 10) ∷ out) (n / 10) ≡ scan_uint max out n
unfolding scan_uint
scan_last max n out h = ground arith

units :
    (max n : ℕ) (out : Bytes)
    → n < 10
    → n ≤ max
    → scan_uint max ((b'0' + n) ∷ out) 0 ≡ scan_uint max out n
unfolding scan_uint
units max n out h fits = ground arith

scan_uint-decimal_onto :
    (max f n : ℕ) (out : Bytes)
    → n < 10 ^ f
    → n ≤ max
    → scan_uint max (decimal_onto f n out) 0 ≡ scan_uint max out n
unfolding decimal_onto
scan_uint-decimal_onto max zero n out h fits = ap (scan_uint max out) (omega arith)
scan_uint-decimal_onto max (suc f) n out h fits = elim (Bool-cases (ltb n 10)) [
  | inl small ↦ rw small (units max n out (ltb→lt n 10 small) fits)
  | inr large ↦ rw large (
      scan_uint-decimal_onto max f (n / 10) ((b'0' + n % 10) ∷ out) (omega (arith, pow-suc 10 f))
        (omega arith)
      ∙ scan_last max n out fits)
]

decimal_onto-IsDigit :
    (f n : ℕ) (out : Bytes) → All IsDigit out → All IsDigit (decimal_onto f n out)
unfolding decimal_onto
decimal_onto-IsDigit zero n out h = h
decimal_onto-IsDigit (suc f) n out h =
    ground (arith, decimal_onto-IsDigit f (n / 10) ((b'0' + n % 10) ∷ out))

decimal_onto-ne-nil : (f n : ℕ) (out : Bytes) → out ≢ [] → decimal_onto f n out ≢ []
unfolding decimal_onto
decimal_onto-ne-nil zero n out h = h
decimal_onto-ne-nil (suc f) n out h =
    ground (arith, decimal_onto-ne-nil f (n / 10) ((b'0' + n % 10) ∷ out))

decimal_onto_some : (f n : ℕ) → decimal_onto (suc f) n [] ≢ []
unfolding decimal_onto
decimal_onto_some f n =
    ground (arith, decimal_onto-ne-nil f (n / 10) ((b'0' + n % 10) ∷ []) (cons-ne-nil _ _))

pub decimal-IsDigit : (n : ℕ) → All IsDigit (decimal n)
unfolding decimal
decimal-IsDigit n = decimal_onto-IsDigit 20 n [] tt

decimal-ne-nil : (n : ℕ) → decimal n ≢ []
unfolding decimal
decimal-ne-nil n = decimal_onto_some 19 n

-- Digits are read by the loop alone: a digit is no sign.
parse_uint-digits :
    (max : ℕ) (s : Bytes) → s ≢ [] → All IsDigit s → parse_uint max s ≡ scan_uint max s 0
unfolding parse_uint
parse_uint-digits max [] h d = absurd (h refl)
parse_uint-digits max (c ∷ []) h (d, _) = ground arith
parse_uint-digits max (c ∷ b ∷ s) h (d, _) = ground arith

scan_uint_end : (max n : ℕ) → scan_uint max [] n ≡ ok n
unfolding scan_uint
scan_uint_end max n = refl

-- A number that fits is read back from its decimal print.
pub parse_uint-decimal : (max n : ℕ) → n ≤ max → n < 10 ^ 20 → parse_uint max (decimal n) ≡ ok n
parse_uint-decimal max n h g =
    parse_uint-digits max (decimal n) (decimal-ne-nil n) (decimal-IsDigit n)
    ∙ (scan_decimal ∙ scan_uint_end max n)
  where
    scan_decimal : scan_uint max (decimal n) 0 ≡ scan_uint max [] n
    scan_decimal = unfold decimal in scan_uint-decimal_onto max 20 n [] g h
