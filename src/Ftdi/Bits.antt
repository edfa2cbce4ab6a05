-- ===== src/Ftdi/Bits.antt =====
-- The bits of a byte and of a byte vector, by masks and by arithmetic.
pub mod Vector
use Prim.Native.Nat.{bit_and, bit_or}
use xvc_rs.Prelude.{
  ℕ, zero, suc, ◌+◌, ◌*◌, ◌/◌, ◌%◌, ◌^◌, ◌≤◌, ◌<◌, ◌≡◌, ◌≢◌, refl, sym, ap, ◌∙◌, Bool, true, false,
  ◌&&◌, ◌||◌, not, ◌==◌, ==_iff, ==_ne, ==_same, List, [], ◌∷◌, ◌++◌, if◌then◌else◌, arith, Bytes,
  AllU8, length, get_elem?, set, Option, none, some, ltb, ltb→lt, Bool-cases, inl, inr,
}

-- `(byte & mask) != 0`
unfoldable pub is_set : ℕ → ℕ → Bool
is_set byte mask = not (bit_and byte mask == 0)

abbrev pub same : Bool → Bool → Bool
same true b = b
same false b = not b

-- The `k`th bit of a byte.
unfoldable pub digit : ℕ → ℕ → Bool
digit byte k = byte / 2 ^ k % 2 == 1

-- Over a small range, every value is checked by evaluation.
unfoldable pub every : ℕ → (ℕ → Bool) → Bool
every zero p = true
every (suc n) p = p n && every n p

pub every_sound : (n : ℕ) (p : ℕ → Bool) (x : ℕ) → every n p ≡ true → x < n → p x ≡ true
unfolding every
every_sound zero p x h lt = absurd (omega arith)
every_sound (suc n) p x h lt = ground (arith, every_sound n p x)

pub and→left : (a b : Bool) → (a && b) ≡ true → a ≡ true
and→left true b h = refl
and→left false b h = h

pub and→right : (a b : Bool) → (a && b) ≡ true → b ≡ true
and→right true b h = h
and→right false b h = cc

pub and→each : {a b c : Bool} → (a && (b && c)) ≡ true → (a ≡ true) × (b ≡ true) × (c ≡ true)
and→each {a} {b} {c} h = (
  and→left a (b && c) h,
  and→left b c (and→right a (b && c) h),
  and→right b c (and→right a (b && c) h),
)

pub or_false : (x : Bool) → (x || false) ≡ x
or_false true = refl
or_false false = refl

pub same→eq : (a b : Bool) → same a b ≡ true → a ≡ b
same→eq true b h = sym h
same→eq false true h = cc
same→eq false false h = refl

set_table : every 8 (λ k. every 256 (λ b. same (is_set b (2 ^ k)) (digit b k))) ≡ true
unfolding every is_set digit
set_table = refl

pub is_set-digit : (b k : ℕ) → b < 256 → k < 8 → is_set b (2 ^ k) ≡ digit b k
is_set-digit b k h g =
    same→eq _ _ (
      every_sound 256 (λ b. same (is_set b (2 ^ k)) (digit b k)) b (every_sound 8 _ k set_table g)
        h)

or_table :
    every 8
      (λ j. every 8 (λ k. every 256 (λ b. same (digit (bit_or b (2 ^ k)) j) (j == k || digit b j))))
    ≡ true
unfolding every digit
or_table = refl

pub digit-bit_or :
    (b k j : ℕ) → b < 256 → k < 8 → j < 8 → digit (bit_or b (2 ^ k)) j ≡ (j == k || digit b j)
digit-bit_or b k j h g f = same→eq _ _ (
    every_sound 256 (λ b. same (digit (bit_or b (2 ^ k)) j) (j == k || digit b j)) b
      (every_sound 8 (λ k. every 256 (λ b. same (digit (bit_or b (2 ^ k)) j) (j == k || digit b j)))
        k (every_sound 8 _ j or_table f) g)
      h)

bound_table : every 8 (λ k. every 256 (λ b. ltb (bit_or b (2 ^ k)) 256)) ≡ true
unfolding every
bound_table = refl

pub bit_or-lt : (b k : ℕ) → b < 256 → k < 8 → bit_or b (2 ^ k) < 256
bit_or-lt b k h g =
    ltb→lt _ _
      (every_sound 256 (λ b. ltb (bit_or b (2 ^ k)) 256) b (every_sound 8 _ k bound_table g) h)

zero_table : every 8 (λ k. same (digit 0 k) false) ≡ true
unfolding every digit
zero_table = refl

pub zero-digit : (k : ℕ) → k < 8 → digit 0 k ≡ false
zero-digit k h = same→eq _ _ (every_sound 8 _ k zero_table h)

-- One more value of `f` in front of a bound.
pub grow :
    (f : ℕ → Bool) (p n j : ℕ) (t : Bool)
    → f (p + n) ≡ t
    → (ltb j (n + 1) && f (p + j)) ≡ ((j == n && t) || (ltb j n && f (p + j)))
grow f p n j t e = elim (Bool-cases (j == n)) [
  | inl here ↦
      let same_place : j ≡ n = ground arith in
      let lo : ltb j n ≡ false = ground arith in
      let hi : ltb j (n + 1) ≡ true = ground arith in
      rw (here, lo, hi) (rw same_place (e ∙ sym (or_false t)))
  | inr there ↦ let both : ltb j (n + 1) ≡ ltb j n = ground arith in rw (there, both) refl
]

pub and_true : (x : Bool) → (x && true) ≡ x
and_true true = refl
and_true false = refl

pub and_false : (x : Bool) → (x && false) ≡ false
and_false true = refl
and_false false = refl

none_table : every 256 (λ b. bit_or b 0 == b) ≡ true
unfolding every
none_table = refl

-- `bits |= if t { mask } else { 0 }`
pub digit-or_if :
    (b k j : ℕ) (t : Bool)
    → b < 256
    → k < 8
    → j < 8
    → digit (bit_or b (if t then 2 ^ k else 0)) j ≡ ((j == k && t) || digit b j)
digit-or_if b k j true h g f =
    digit-bit_or b k j h g f ∙ ap (λ x. x || digit b j) (sym (and_true (j == k)))
digit-or_if b k j false h g f =
    ap (λ x. digit x j)
      ((==_iff (bit_or b 0) b).0 (every_sound 256 (λ b. bit_or b 0 == b) b none_table h))
    ∙ ap (λ x. x || digit b j) (sym (and_false (j == k)))

pub or_if-lt : (b k : ℕ) (t : Bool) → b < 256 → k < 8 → bit_or b (if t then 2 ^ k else 0) < 256
or_if-lt b k true h g = bit_or-lt b k h g
or_if-lt b k false h g =
    rw ((==_iff (bit_or b 0) b).0 (every_sound 256 (λ b. bit_or b 0 == b) b none_table h)) h
