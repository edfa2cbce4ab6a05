-- ===== src/Ftdi/Bits/Vector.antt =====
-- A byte vector as bits, the lowest bit of the first byte first, and a place in it as the code keeps
-- it: an index and a mask.
use Prim.Native.Nat.{bit_or}
use xvc_rs.Prelude.{
  ℕ, zero, suc, ◌+◌, ◌*◌, ◌/◌, ◌%◌, ◌^◌, ◌<◌, ◌≡◌, ◌≢◌, refl, ap, ◌∙◌, Bool, true, false, ◌||◌,
  ◌==◌, ==_iff, [], ◌∷◌, if◌then◌else◌, arith, Bytes, AllU8, length, get_elem?, set, replicate,
  none, some, ltb, lt→ltb, Outcome, ok, panic, Bool-cases, inl, inr,
}
use xvc_rs.Ftdi.Bits.{
  is_set, is_set-digit, digit, digit-bit_or, bit_or-lt, every, every_sound, same, same→eq,
  zero-digit,
}

abbrev pub byte_at : Bytes → ℕ → ℕ
byte_at v i = elim (get_elem? v i) [ none ↦ 0 | some b ↦ b ]

unfoldable pub bit : Bytes → ℕ → Bool
bit v i = digit (byte_at v (i / 8)) (i % 8)

-- `v[i] |= mask` and `v[i] = 0`
unfoldable pub or_at {ℓ} : {E : Type ℓ} → Bytes → ℕ → ℕ → Outcome E Bytes
or_at v i mask = if ltb i (length v) then ok (set v i (bit_or (byte_at v i) mask)) else panic

unfoldable pub clear_at {ℓ} : {E : Type ℓ} → Bytes → ℕ → Outcome E Bytes
clear_at v i = if ltb i (length v) then ok (set v i 0) else panic

pub record Place : Type 0 where
  pub index : ℕ
  pub mask : ℕ

abbrev pub at : ℕ → Place
at p = record { index = p / 8; mask = 2 ^ (p % 8) }

-- `if bit == 0x80 { bit = 0x01; index += 1 } else { bit <<= 1 }`
unfoldable pub step : Place → Place
step p =
    if p.mask == 0x80
    then record { index = p.index + 1; mask = 1 }
    else record { index = p.index; mask = p.mask * 2 % 256 }

-- `(v[index] & bit) != 0`
unfoldable pub pin {ℓ} : {E : Type ℓ} → Bytes → Place → Outcome E Bool
pin v p = if ltb p.index (length v) then ok (is_set (byte_at v p.index) p.mask) else panic

last_table : every 8 (λ k. same (2 ^ k == 0x80) (k == 7)) ≡ true
unfolding every
last_table = refl

next_table : every 7 (λ k. 2 ^ k * 2 % 256 == 2 ^ (k + 1)) ≡ true
unfolding every
next_table = refl

first_table : every 8 (λ k. same (2 ^ k == 1) (k == 0)) ≡ true
unfolding every
first_table = refl

pub mask_first : (k : ℕ) → k < 8 → (2 ^ k == 1) ≡ (k == 0)
mask_first k h = same→eq _ _ (every_sound 8 _ k first_table h)

pub mask_last : (k : ℕ) → k < 8 → (2 ^ k == 0x80) ≡ (k == 7)
mask_last k h = same→eq _ _ (every_sound 8 _ k last_table h)

pub mask_next : (k : ℕ) → k < 7 → 2 ^ k * 2 % 256 ≡ 2 ^ (k + 1)
mask_next k h = (==_iff _ _).0 (every_sound 7 _ k next_table h)

place_eq :
    {i j m n : ℕ}
    → i ≡ j
    → m ≡ n
    → ◌≡◌ {A = Place} (record { index = i; mask = m }) (record { index = j; mask = n })
place_eq e f = λ t. record { index = e t; mask = f t }

pub step-at : (p : ℕ) → step (at p) ≡ at (p + 1)
unfolding step
step-at p = elim (Bool-cases (p % 8 == 7)) [
  | inl last ↦
      rw (mask_last (p % 8) (omega arith) ∙ last)
        (place_eq (ground arith) (let e : (p + 1) % 8 ≡ 0 = ground arith in rw e refl))
  | inr more ↦ rw (mask_last (p % 8) (omega arith) ∙ more) (
      place_eq (ground arith) (
        mask_next (p % 8) (ground arith)
        ∙ (let e : p % 8 + 1 ≡ (p + 1) % 8 = ground arith in rw e refl)))
]

pub byte_at-lt : (v : Bytes) (i : ℕ) → AllU8 v → byte_at v i < 256
byte_at-lt [] i h = omega arith
byte_at-lt (b ∷ v) zero (hb, h) = hb
byte_at-lt (b ∷ v) (suc i) (hb, h) = byte_at-lt v i h

pub pin-at {ℓ} :
    {E : Type ℓ} (v : Bytes) (p : ℕ)
    → AllU8 v
    → p / 8 < length v
    → pin {E = E} v (at p) ≡ ok (bit v p)
unfolding pin bit
pin-at v p u h =
    rw (lt→ltb _ _ h)
      (ap ok (is_set-digit (byte_at v (p / 8)) (p % 8) (byte_at-lt v (p / 8) u) (omega arith)))

byte_at-set_self : (v : Bytes) (i b : ℕ) → i < length v → byte_at (set v i b) i ≡ b
byte_at-set_self [] i b h = absurd (omega arith)
byte_at-set_self (x ∷ v) zero b h = refl
byte_at-set_self (x ∷ v) (suc i) b h = byte_at-set_self v i b (omega arith)

byte_at-set_ne : (v : Bytes) (i j b : ℕ) → i ≢ j → byte_at (set v i b) j ≡ byte_at v j
byte_at-set_ne [] i j b h = refl
byte_at-set_ne (x ∷ v) zero zero b h = absurd (h refl)
byte_at-set_ne (x ∷ v) zero (suc j) b h = refl
byte_at-set_ne (x ∷ v) (suc i) zero b h = refl
byte_at-set_ne (x ∷ v) (suc i) (suc j) b h = byte_at-set_ne v i j b (λ e. h (ap suc e))

pub length-set : (v : Bytes) (i b : ℕ) → length (set v i b) ≡ length v
length-set [] i b = refl
length-set (x ∷ v) zero b = refl
length-set (x ∷ v) (suc i) b = ap suc (length-set v i b)

pub set-AllU8 : (v : Bytes) (i b : ℕ) → AllU8 v → b < 256 → AllU8 (set v i b)
set-AllU8 [] i b h hb = tt
set-AllU8 (x ∷ v) zero b (hx, h) hb = (hb, h)
set-AllU8 (x ∷ v) (suc i) b (hx, h) hb = (hx, set-AllU8 v i b h hb)

-- What `v[p / 8] |= 1 << p % 8` leaves.
abbrev pub raised : Bytes → ℕ → Bytes
raised v p = set v (p / 8) (bit_or (byte_at v (p / 8)) (2 ^ (p % 8)))

pub or_at-at {ℓ} :
    {E : Type ℓ} (v : Bytes) (p : ℕ)
    → p / 8 < length v
    → or_at {E = E} v (p / 8) (2 ^ (p % 8)) ≡ ok (raised v p)
unfolding or_at
or_at-at v p h = rw (lt→ltb _ _ h) refl

pub raised-AllU8 : (v : Bytes) (p : ℕ) → AllU8 v → AllU8 (raised v p)
raised-AllU8 v p u =
    set-AllU8 v (p / 8) _ u (bit_or-lt _ (p % 8) (byte_at-lt v (p / 8) u) (omega arith))

-- `if t { v[p / 8] |= 1 << p % 8 }`
abbrev pub put : Bytes → ℕ → Bool → Bytes
put v p t = if t then raised v p else v

pub or_at-put {ℓ} :
    {E : Type ℓ} (v : Bytes) (p : ℕ) (t : Bool)
    → p / 8 < length v
    → (if t then or_at {E = E} v (p / 8) (2 ^ (p % 8)) else ok v) ≡ ok (put v p t)
or_at-put v p true h = or_at-at v p h
or_at-put v p false h = refl

pub length-put : (v : Bytes) (p : ℕ) (t : Bool) → length (put v p t) ≡ length v
length-put v p true = length-set v _ _
length-put v p false = refl

pub put-AllU8 : (v : Bytes) (p : ℕ) (t : Bool) → AllU8 v → AllU8 (put v p t)
put-AllU8 v p true u = raised-AllU8 v p u
put-AllU8 v p false u = u

-- It raises one bit.
pub bit-raised :
    (v : Bytes) (p j : ℕ) → AllU8 v → p / 8 < length v → bit (raised v p) j ≡ (j == p || bit v j)
unfolding bit
bit-raised v p j u h = elim (Bool-cases (j / 8 == p / 8)) [
  | inl together ↦
      let e : j / 8 ≡ p / 8 = ground arith in
      let same_bit : (j % 8 == p % 8) ≡ (j == p) = ground arith in
      rw (e, byte_at-set_self v (p / 8) _ h)
        (digit-bit_or (byte_at v (p / 8)) (p % 8) (j % 8) (byte_at-lt v (p / 8) u) (omega arith)
            (omega arith)
          ∙ rw same_bit refl)
  | inr apart ↦
      let other : (j == p) ≡ false = ground arith in
      let ne : p / 8 ≢ j / 8 = ground arith in
      rw (other, byte_at-set_ne v (p / 8) (j / 8) (bit_or (byte_at v (p / 8)) (2 ^ (p % 8))) ne)
        refl
]

pub clear_at_lem {ℓ} :
    {E : Type ℓ} (v : Bytes) (i : ℕ) → i < length v → clear_at {E = E} v i ≡ ok (set v i 0)
unfolding clear_at
clear_at_lem v i h = rw (lt→ltb _ _ h) refl

-- A byte that is cleared.
pub bit-set-zero :
    (v : Bytes) (i j : ℕ)
    → i < length v
    → bit (set v i 0) j ≡ (if j / 8 == i then false else bit v j)
unfolding bit
bit-set-zero v i j h = elim (Bool-cases (j / 8 == i)) [
  | inl here ↦
      let e : j / 8 ≡ i = ground arith in
      rw (here, e, byte_at-set_self v i 0 h) (zero-digit (j % 8) (omega arith))
  | inr there ↦
      let ne : i ≢ j / 8 = ground arith in rw (there, byte_at-set_ne v i (j / 8) 0 ne) refl
]

byte_at-zeros : (n i : ℕ) → byte_at (replicate n 0) i ≡ 0
byte_at-zeros zero i = refl
byte_at-zeros (suc n) zero = refl
byte_at-zeros (suc n) (suc i) = byte_at-zeros n i

pub bit-zeros : (n j : ℕ) → bit (replicate n 0) j ≡ false
unfolding bit
bit-zeros n j = rw (byte_at-zeros n (j / 8)) (zero-digit (j % 8) (omega arith))

pub zeros-AllU8 : (n : ℕ) → AllU8 (replicate n 0)
zeros-AllU8 zero = tt
zeros-AllU8 (suc n) = (omega arith, zeros-AllU8 n)

pub bit-put :
    (v : Bytes) (p j : ℕ) (t : Bool)
    → AllU8 v
    → p / 8 < length v
    → bit v p ≡ false
    → bit (put v p t) j ≡ (if j == p then t else bit v j)
bit-put v p j true u h clean =
    bit-raised v p j u h
    ∙ elim (Bool-cases (j == p)) [ inl here ↦ rw here refl | inr there ↦ rw there refl ]
bit-put v p j false u h clean = elim (Bool-cases (j == p)) [
  | inl here ↦ (let e : j ≡ p = ground arith in rw here (rw e clean))
  | inr there ↦ rw there refl
]
