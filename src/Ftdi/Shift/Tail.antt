-- ===== src/Ftdi/Shift/Tail.antt =====
-- The commands that `shift_chunks` makes of stashed TDI bits, and what they clock out.
use xvc_rs.Prelude.{
  ℕ, zero, suc, ◌+◌, ◌*◌, ◌/◌, ◌%◌, ◌≤◌, ◌<◌, ◌≡◌, refl, ap, ◌∙◌, Bool, ◌==◌, if◌then◌else◌, leb,
  List, [], ◌∷◌, ◌++◌, append-nil, arith, Bytes, ok, length, take, length-take, replicate,
  Bool-cases, inl, inr, index,
}
use xvc_rs.Ftdi.Bits.{digit}
use xvc_rs.Ftdi.Bits.Vector.{bit, byte_at}
use xvc_rs.Ftdi.Shift.{Call, clock_data, clock_bits}
use xvc_rs.Ftdi.Shift.Pins.{
  span, span_congr, span-append, clocked_tdi, clocked_tdi-append, clocked_tms,
}

-- What `n` stashed TDI bits become.
abbrev pub byte_calls : ℕ → Bytes → List Call
byte_calls n buf = if leb 8 n then clock_data (take (n / 8) buf) ∷ [] else []

abbrev pub rest_calls : ℕ → Bytes → List Call
rest_calls n buf = if n % 8 == 0 then [] else clock_bits (byte_at buf (n / 8)) (n % 8) ∷ []

abbrev pub tail_calls : ℕ → Bytes → List Call
tail_calls n buf = byte_calls n buf ++ rest_calls n buf

abbrev pub tail_counts : ℕ → List ℕ
tail_counts n = if n == 0 then [] else n ∷ []

pub index-byte_at :
    {E : Type 0} (v : Bytes) (i : ℕ) → i < length v → index {E = E} v i ≡ ok (byte_at v i)
index-byte_at [] i h = absurd (omega arith)
index-byte_at (b ∷ v) zero h = refl
index-byte_at {E} (b ∷ v) (suc i) h = index-byte_at {E = E} v i (omega arith)

byte_at-take : (k : ℕ) (v : Bytes) (i : ℕ) → i < k → byte_at (take k v) i ≡ byte_at v i
byte_at-take zero v i h = absurd (omega arith)
byte_at-take (suc k) [] i h = refl
byte_at-take (suc k) (b ∷ v) zero h = refl
byte_at-take (suc k) (b ∷ v) (suc i) h = byte_at-take k v i (omega arith)

bit-take : (k : ℕ) (v : Bytes) (i : ℕ) → i < k * 8 → bit (take k v) i ≡ bit v i
unfolding bit
bit-take k v i h = rw (byte_at-take k v (i / 8) (omega arith)) refl

bit-last : (v : Bytes) (n i : ℕ) → i < n % 8 → digit (byte_at v (n / 8)) i ≡ bit v (n / 8 * 8 + i)
unfolding bit
bit-last v n i h =
    let e : (n / 8 * 8 + i) / 8 ≡ n / 8 = omega arith in
    let e' : (n / 8 * 8 + i) % 8 ≡ i = omega arith in rw (e, e') refl

clocked_tdi-byte_calls :
    (n : ℕ) (buf : Bytes)
    → n / 8 ≤ length buf
    → clocked_tdi (byte_calls n buf) ≡ span (bit buf) 0 (n / 8 * 8)
clocked_tdi-byte_calls n buf h = elim (Bool-cases (leb 8 n)) [
  | inl some_bytes ↦
      rw (some_bytes, length-take (n / 8) buf h)
        (append-nil _
          ∙ span_congr (bit (take (n / 8) buf)) (bit buf) 0 0 (n / 8 * 8)
              (λ i lt. let e : 0 + i ≡ i = omega arith in rw e (bit-take (n / 8) buf i lt)))
  | inr none ↦ (let z : n / 8 * 8 ≡ 0 = ground arith in rw (none, z) refl)
]

clocked_tdi-rest_calls :
    (n : ℕ) (buf : Bytes) → clocked_tdi (rest_calls n buf) ≡ span (bit buf) (n / 8 * 8) (n % 8)
clocked_tdi-rest_calls n buf = elim (Bool-cases (n % 8 == 0)) [
  | inl whole ↦ (let z : n % 8 ≡ 0 = ground arith in rw (whole, z) refl)
  | inr some_bits ↦ rw some_bits (
      append-nil _
      ∙ span_congr (digit (byte_at buf (n / 8))) (bit buf) 0 (n / 8 * 8) (n % 8)
          (λ i lt. let e : 0 + i ≡ i = omega arith in rw e (bit-last buf n i lt)))
]

-- They clock the stashed bits out.
pub clocked_tdi-tail_calls :
    (n : ℕ) (buf : Bytes) → n / 8 ≤ length buf → clocked_tdi (tail_calls n buf) ≡ span (bit buf) 0 n
clocked_tdi-tail_calls n buf h =
    let e : 0 + n / 8 * 8 ≡ n / 8 * 8 = omega arith in
    let e' : n / 8 * 8 + n % 8 ≡ n = omega arith in
    clocked_tdi-append (byte_calls n buf) (rest_calls n buf)
    ∙ rw (clocked_tdi-byte_calls n buf h, clocked_tdi-rest_calls n buf)
        (rw (e, e') at (span-append (bit buf) 0 (n / 8 * 8) (n % 8)))

replicate-append : (m n : ℕ) (a : Bool) → replicate m a ++ replicate n a ≡ replicate (m + n) a
replicate-append zero n a = (let e : 0 + n ≡ n = omega arith in rw e refl)
replicate-append (suc m) n a =
    let e : suc m + n ≡ suc (m + n) = omega arith in rw e (ap (λ l. a ∷ l) (replicate-append m n a))

-- They hold the TMS pin meanwhile.
pub clocked_tms-tail_calls :
    (held : Bool) (n : ℕ) (buf : Bytes)
    → n / 8 ≤ length buf
    → clocked_tms held (tail_calls n buf) ≡ replicate n held
clocked_tms-tail_calls held n buf h = elim (Bool-cases (leb 8 n)) [
  | inr none ↦ elim (Bool-cases (n % 8 == 0)) [
    | inl whole ↦ (let z : n ≡ 0 = ground arith in rw (none, whole) (rw z refl))
    | inr some_bits ↦
        (let z : n % 8 ≡ n = ground arith in rw (none, some_bits) (append-nil _ ∙ rw z refl))
  ]
  | inl some_bytes ↦ elim (Bool-cases (n % 8 == 0)) [
    | inl whole ↦
        (let z : n / 8 * 8 ≡ n = ground arith in
          rw (some_bytes, whole, length-take (n / 8) buf h) (append-nil _ ∙ rw z refl))
    | inr some_bits ↦
        let z : n / 8 * 8 + n % 8 ≡ n = omega arith in
        rw (some_bytes, some_bits, length-take (n / 8) buf h)
          (ap (λ l. replicate (n / 8 * 8) held ++ l) (append-nil _)
            ∙ (replicate-append (n / 8 * 8) (n % 8) held ∙ rw z refl))
  ]
]
