-- ===== src/Text/Numeral.antt =====
-- What `str::parse` accepts for an unsigned integer: digits, with one plus sign at most before them.
use mathlib.Core.List.{cons-ne-nil}
use mathlib.Core.Path.{subst}
use xvc_rs.Prelude.{
  ℕ, ◌+◌, ◌-◌, ◌*◌, ◌^◌, ◌≤◌, ◌<◌, ◌≡◌, ◌≢◌, refl, sym, ◌⊎◌, inl, inr, Bool-cases, ltb, ◌==◌,
  ==_iff, ◌||◌, [], ◌∷◌, arith, Bytes, All, ok,
}
use xvc_rs.Text.{scan_uint, parse_uint, is_digit, decimal}
use xvc_rs.Text.Decimal.{IsDigit, parse_uint-decimal}
use xvc_rs.Text.Search.{Lacks}
use xvc_rs.Text.Utf8.{IsAscii}

-- The number that digits stand for, behind a number that was read.
unfoldable pub value : Bytes → ℕ → ℕ
value [] n = n
value (c ∷ s) n = value s (n * 10 + (c - b'0'))

-- A text that spells a number of at most `max`.
pub data Numeral (max : ℕ) : Bytes → ℕ → Type 0 where
  unsigned :
      (s : Bytes) (m : ℕ) → s ≢ [] → All IsDigit s → value s 0 ≡ m → m ≤ max → Numeral max s m
  signed :
      (s : Bytes) (m : ℕ)
      → s ≢ []
      → All IsDigit s
      → value s 0 ≡ m
      → m ≤ max
      → Numeral max (b'+' ∷ s) m

value-ge : (s : Bytes) (n : ℕ) → n ≤ value s n
unfolding value
value-ge [] n = omega arith
value-ge (c ∷ s) n = omega (arith, value-ge s (n * 10 + (c - b'0')))

scan_uint-value :
    (max : ℕ) (s : Bytes) (n : ℕ)
    → All IsDigit s
    → value s n ≤ max
    → scan_uint max s n ≡ ok (value s n)
unfolding scan_uint value
scan_uint-value max [] n d h = refl
scan_uint-value max (c ∷ s) n (dc, d) h =
    ground
      (arith, value-ge s (n * 10 + (c - b'0')), scan_uint-value max s (n * 10 + (c - b'0')) d h)

scan_uint-eq-ok :
    (max : ℕ) (s : Bytes) (n : ℕ) {m : ℕ}
    → scan_uint max s n ≡ ok m
    → n ≤ max
    → All IsDigit s × (value s n ≡ m) × (m ≤ max)
unfolding scan_uint value
scan_uint-eq-ok max [] n {m} h fits = let same : n ≡ m = cc in (tt, same, omega arith)
scan_uint-eq-ok max (c ∷ s) n h fits = elim (Bool-cases (is_digit c)) [
  | inr e ↦ cc (rw e at h)
  | inl e ↦ elim (Bool-cases (ltb max (n * 10 + (c - b'0')))) [
    | inl over ↦ cc (rw (e, over) at h)
    | inr under ↦
        let (d, v, le) =
          scan_uint-eq-ok max s (n * 10 + (c - b'0')) (rw (e, under) at h) (ground arith) in
        ((ground arith, d), v, le)
  ]
]

pub parse_uint-Numeral : (max : ℕ) (s : Bytes) (m : ℕ) → Numeral max s m → parse_uint max s ≡ ok m
unfolding parse_uint
parse_uint-Numeral max _ m (unsigned [] _ ne d v le) = absurd (ne refl)
parse_uint-Numeral max _ m (unsigned (c ∷ []) _ ne d v le) =
    ground (arith, scan_uint-value max (c ∷ []) 0 d)
parse_uint-Numeral max _ m (unsigned (c ∷ e ∷ s) _ ne d v le) =
    ground (arith, scan_uint-value max (c ∷ e ∷ s) 0 d)
parse_uint-Numeral max _ m (signed [] _ ne d v le) = absurd (ne refl)
parse_uint-Numeral max _ m (signed (c ∷ s) _ ne d v le) =
    ground (arith, scan_uint-value max (c ∷ s) 0 d)

pub parse_uint-eq-ok : (max : ℕ) (s : Bytes) {m : ℕ} → parse_uint max s ≡ ok m → Numeral max s m
unfolding parse_uint
parse_uint-eq-ok max [] h = cc
parse_uint-eq-ok max (c ∷ []) {m} h = elim (Bool-cases (c == b'+' || c == b'-')) [
  | inl e ↦ cc (rw e at h)
  | inr e ↦
      let (d, v, le) = scan_uint-eq-ok max (c ∷ []) 0 (rw e at h) (omega arith) in
      unsigned (c ∷ []) m (cons-ne-nil _ _) d v le
]
parse_uint-eq-ok max (c ∷ e ∷ s) {m} h = elim (Bool-cases (c == b'+')) [
  | inl plus ↦
      let (d, v, le) = scan_uint-eq-ok max (e ∷ s) 0 (rw plus at h) (omega arith) in
      subst (λ b. Numeral max (b ∷ e ∷ s) m) (sym ((==_iff c b'+').0 plus))
        (signed (e ∷ s) m (cons-ne-nil _ _) d v le)
  | inr digit ↦
      let (d, v, le) = scan_uint-eq-ok max (c ∷ e ∷ s) 0 (rw digit at h) (omega arith) in
      unsigned (c ∷ e ∷ s) m (cons-ne-nil _ _) d v le
]

-- A numeral has none of the bytes that are neither digits nor the plus sign.
pub digits-Lacks : (c : ℕ) (s : Bytes) → (c < b'0') ⊎ (b'9' < c) → All IsDigit s → Lacks c s
digits-Lacks c [] h d = tt
digits-Lacks c (b ∷ s) h (db, d) = (ground arith, digits-Lacks c s h d)

pub Numeral-Lacks :
    (max c : ℕ) (s : Bytes) (m : ℕ)
    → c ≢ b'+'
    → (c < b'0') ⊎ (b'9' < c)
    → Numeral max s m
    → Lacks c s
Numeral-Lacks max c _ m p h (unsigned s _ ne d v le) = digits-Lacks c s h d
Numeral-Lacks max c _ m p h (signed s _ ne d v le) = (λ e. p (sym e), digits-Lacks c s h d)

pub digits-IsAscii : (s : Bytes) → All IsDigit s → IsAscii s
digits-IsAscii [] d = tt
digits-IsAscii (b ∷ s) (db, d) = (omega arith, digits-IsAscii s d)

pub Numeral-IsAscii : (max : ℕ) (s : Bytes) (m : ℕ) → Numeral max s m → IsAscii s
Numeral-IsAscii max _ m (unsigned s _ ne d v le) = digits-IsAscii s d
Numeral-IsAscii max _ m (signed s _ ne d v le) = (omega arith, digits-IsAscii s d)

pub Numeral-le : (max : ℕ) (s : Bytes) (m : ℕ) → Numeral max s m → m ≤ max
Numeral-le max _ m (unsigned s _ ne d v le) = le
Numeral-le max _ m (signed s _ ne d v le) = le

pub decimal-Numeral : (max n : ℕ) → n ≤ max → n < 10 ^ 20 → Numeral max (decimal n) n
decimal-Numeral max n h g = parse_uint-eq-ok max (decimal n) (parse_uint-decimal max n h g)
