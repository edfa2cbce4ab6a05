-- ===== src/Prelude/Slices.antt =====
-- Bytes, slices, and the standard library's operations on them.
use Prim.Native.Nat.{ℕ, zero, suc, ◌+◌, ◌*◌, ◌/◌, ◌%◌, ◌^◌, ◌≤◌, ◌<◌}
use Prim.Native.Char.{code}
use Prim.Native.String.{String}
use mathlib.Core.Path.{◌≡◌, refl}
use mathlib.Core.Bool.{Bool, true, false, ◌&&◌}
use mathlib.Core.Logic.{◌⊎◌, inl, inr, ◌≢◌}
use mathlib.Core.Option.{Option, none, some}
use mathlib.Core.List.{List, [], ◌∷◌, ◌++◌, cons-ne-nil}
use native.Mathlib.Omega.{arith}
use xvc_rs.Prelude.Tests.{ltb, leb, ◌==◌, if◌then◌else◌, ==_iff, le→leb, Bool-cases}
use xvc_rs.Prelude.Lists.{length, take, drop, get_elem?, length-append, take_left, drop_next}
use xvc_rs.Prelude.Results.{Outcome, ok, panic, Safe, ok_or}

abbrev pub Bytes : Type 0
Bytes = List ℕ

-- The bytes of an ASCII literal.
abbrev pub codes : String → Bytes
codes String.[] = []
codes (String.◌∷◌ c s) = code c ∷ codes s

module _ {ℓ κ} {A : Type ℓ} (P : A → Type κ) where
  abbrev pub All : List A → Type κ
  All [] = Unit
  All (x ∷ xs) = P x × All xs

  pub All-append : (xs ys : List A) → All xs → All ys → All (xs ++ ys)
  All-append [] ys _ hy = hy
  All-append (x ∷ xs) ys (px, hx) hy = (px, All-append xs ys hx hy)

  pub All-drop : (n : ℕ) (xs : List A) → All xs → All (drop n xs)
  All-drop zero xs h = h
  All-drop (suc n) [] h = tt
  All-drop (suc n) (x ∷ xs) (_, h) = All-drop n xs h

-- Every element is a `u8`.
abbrev pub AllU8 : Bytes → Type 0
AllU8 = All (λ b. b < 256)

-- `&s[n..]`, `&s[..n]` and `s[i]`.
module _ {ℓ κ} {E : Type ℓ} {A : Type κ} where
  abbrev pub slice_from : ℕ → List A → Outcome E (List A)
  slice_from n s = if leb n (length s) then ok (drop n s) else panic

  abbrev pub slice_to : ℕ → List A → Outcome E (List A)
  slice_to n s = if leb n (length s) then ok (take n s) else panic

  abbrev pub index : List A → ℕ → Outcome E A
  index s i = elim (get_elem? s i) [ none ↦ panic | some b ↦ ok b ]

-- `buf.starts_with(prefix)`.
abbrev pub starts_with : Bytes → Bytes → Bool
starts_with s [] = true
starts_with [] (p ∷ ps) = false
starts_with (c ∷ s) (p ∷ ps) = c == p && starts_with s ps

-- `u32::to_le_bytes` and `u32::from_le_bytes`.
abbrev pub to_le_bytes : ℕ → Bytes
to_le_bytes n = n % 256 ∷ n / 2 ^ 8 % 256 ∷ n / 2 ^ 16 % 256 ∷ n / 2 ^ 24 % 256 ∷ []

abbrev pub from_le_bytes : ℕ → ℕ → ℕ → ℕ → ℕ
from_le_bytes a b c d = a + 2 ^ 8 * b + 2 ^ 16 * c + 2 ^ 24 * d

-- `a.div_ceil(b)`.
abbrev pub div_ceil : ℕ → ℕ → ℕ
div_ceil a b = if ltb 0 (a % b) then a / b + 1 else a / b

pub div_ceil-eight : (n : ℕ) → div_ceil n 8 ≡ (n + 7) / 8
div_ceil-eight n = ground arith

pub starts_with→append : (s p : Bytes) → starts_with s p ≡ true → s ≡ p ++ drop (length p) s
starts_with→append s [] h = refl
starts_with→append [] (p ∷ ps) h = ground arith
starts_with→append (c ∷ s) (p ∷ ps) h = ground (arith, ==_iff c p, starts_with→append s ps)

pub append→starts_with : (p r : Bytes) → starts_with (p ++ r) p ≡ true
append→starts_with [] r = refl
append→starts_with (c ∷ p) r = ground (arith, append→starts_with p r)

-- A prefix of an extended text is a prefix of the text or goes beyond it.
pub starts_with-append :
    (s q p : Bytes)
    → starts_with (s ++ q) p ≡ true
    → (starts_with s p ≡ true) ⊎ (starts_with p s ≡ true)
starts_with-append s q [] h = inl refl
starts_with-append [] q (c ∷ p) h = inr refl
starts_with-append (b ∷ s) q (c ∷ p) h =
    ground (arith, ==_iff b c, ==_iff c b, starts_with-append s q p)

pub starts_with_left : (p s q : Bytes) → starts_with p (s ++ q) ≡ true → starts_with p s ≡ true
starts_with_left p [] q h = refl
starts_with_left [] (c ∷ s) q h = ground arith
starts_with_left (b ∷ p) (c ∷ s) q h = ground (arith, starts_with_left p s q)

pub from_le_bytes-to_le_bytes :
    (n : ℕ)
    → n < 2 ^ 32
    → from_le_bytes (n % 256) (n / 2 ^ 8 % 256) (n / 2 ^ 16 % 256) (n / 2 ^ 24 % 256) ≡ n
from_le_bytes-to_le_bytes n h = omega arith

pub to_le_bytes-from_le_bytes :
    (a b c d : ℕ)
    → a < 256
    → b < 256
    → c < 256
    → d < 256
    → to_le_bytes (from_le_bytes a b c d) ≡ a ∷ b ∷ c ∷ d ∷ []
to_le_bytes-from_le_bytes a b c d ha hb hc hd = ground arith

pub from_le_bytes-lt :
    (a b c d : ℕ) → a < 256 → b < 256 → c < 256 → d < 256 → from_le_bytes a b c d < 2 ^ 32
from_le_bytes-lt a b c d ha hb hc hd = omega arith

pub length-starts_with : (p s : Bytes) → starts_with p s ≡ true → length s ≤ length p
length-starts_with p [] h = omega arith
length-starts_with [] (c ∷ s) h = absurd (ground arith)
length-starts_with (b ∷ p) (c ∷ s) h = ground (arith, length-starts_with p s)

module _ {ℓ κ} {E : Type ℓ} {A : Type κ} where
  pub slice_to_left : (p r : List A) → slice_to {E = E} (length p) (p ++ r) ≡ ok p
  slice_to_left p r =
      rw (le→leb (length p) (length (p ++ r)) (omega (arith, length-append p r)))
        (rw (take_left p r))

  pub slice_from_next :
      (p : List A) (c : A) (r : List A) → slice_from {E = E} (length p + 1) (p ++ c ∷ r) ≡ ok r
  slice_from_next p c r =
      rw (le→leb (length p + 1) (length (p ++ c ∷ r)) (omega (arith, length-append p (c ∷ r))))
        (rw (drop_next p c r))

pub All-append_left {ℓ κ} :
    {A : Type ℓ} (P : A → Type κ) (xs ys : List A) → All P (xs ++ ys) → All P xs
All-append_left P [] ys h = tt
All-append_left P (x ∷ xs) ys (px, h) = (px, All-append_left P xs ys h)

pub All-append_right {ℓ κ} :
    {A : Type ℓ} (P : A → Type κ) (xs ys : List A) → All P (xs ++ ys) → All P ys
All-append_right P [] ys h = h
All-append_right P (x ∷ xs) ys (px, h) = All-append_right P xs ys h

-- Two ways to cut one list in two: the first cut stands behind the second, or before it.
pub append-cases :
    (xs ys zs ws : Bytes)
    → xs ++ ys ≡ zs ++ ws
    → ((r : Bytes) × (xs ≡ zs ++ r) × (r ++ ys ≡ ws))
      ⊎ ((q : Bytes) × (q ≢ []) × (zs ≡ xs ++ q) × (ys ≡ q ++ ws))
append-cases xs ys [] ws e = inl (xs, refl, e)
append-cases [] ys (z ∷ zs) ws e = inr (z ∷ zs, cons-ne-nil z zs, refl, e)
append-cases (x ∷ xs) ys (z ∷ zs) ws e = elim (append-cases xs ys zs ws (cc)) [
  | inl (r, p, q) ↦ inl (r, cc, q)
  | inr (q, ne, p, t) ↦ inr (q, ne, cc, t)
]

pub append-eq-nil : (r q : Bytes) → r ++ q ≡ [] → q ≡ []
append-eq-nil [] q h = h
append-eq-nil (x ∷ r) q h = cc

pub eq-nil_left : (r q : Bytes) → r ++ q ≡ [] → r ≡ []
eq-nil_left [] q h = refl
eq-nil_left (x ∷ r) q h = cc

pub append-ne-nil : (r q : Bytes) → q ≢ [] → r ++ q ≢ []
append-ne-nil r q ne h = ne (append-eq-nil r q h)

pub length_pos : (s : Bytes) → s ≢ [] → 0 < length s
length_pos [] h = absurd (h refl)
length_pos (c ∷ s) h = omega arith

-- Reads that each bring at least one byte, and what they bring together.
abbrev pub AreChunks : List Bytes → Type 0
AreChunks = All (λ s. s ≢ [])

abbrev pub joined : List Bytes → Bytes
joined [] = []
joined (s ∷ chunks) = s ++ joined chunks

module _ {ℓ κ} (E : Type ℓ) {A : Type κ} where
  pub slice_to-Safe : (n : ℕ) (s : List A) → n ≤ length s → Safe (slice_to {E = E} n s)
  slice_to-Safe n s h = rw (le→leb n (length s) h) tt

  pub slice_from-Safe : (n : ℕ) (s : List A) → n ≤ length s → Safe (slice_from {E = E} n s)
  slice_from-Safe n s h = rw (le→leb n (length s) h) tt

pub ok_or-eq-ok {ℓ κ} :
    {E : Type ℓ} {A : Type κ} (o : Option A) (e : E) {a : A} → ok_or o e ≡ ok a → o ≡ some a
ok_or-eq-ok none e h = cc
ok_or-eq-ok (some a) e h = cc

module _ {ℓ κ} {E : Type ℓ} {A : Type κ} where
  pub slice_to-eq-ok :
      (n : ℕ) (s : List A) {t : List A} → slice_to {E = E} n s ≡ ok t → t ≡ take n s
  slice_to-eq-ok n s {t} h = elim (Bool-cases (leb n (length s))) [
    | inl e ↦ cc (rw e at h)
    | inr e ↦ cc (rw e at h)
  ]

  pub slice_from-eq-ok :
      (n : ℕ) (s : List A) {t : List A} → slice_from {E = E} n s ≡ ok t → t ≡ drop n s
  slice_from-eq-ok n s {t} h = elim (Bool-cases (leb n (length s))) [
    | inl e ↦ cc (rw e at h)
    | inr e ↦ cc (rw e at h)
  ]
