-- ===== src/Ftdi/Shift/Tallied.antt =====
-- The counts that `shift_chunks` keeps for a chunk, and what the device replies to the chunk's calls.
use xvc_rs.Prelude.{
  ℕ, ◌+◌, ◌-◌, ◌*◌, ◌/◌, ◌%◌, ◌≤◌, ◌≡◌, refl, sym, ap, ◌∙◌, Bool, ◌==◌, leb, ltb, List, [], ◌∷◌,
  ◌++◌, append-nil, append_assoc, arith, Bytes, length, length-take, Bool-cases, inl, inr, div_ceil,
  div_ceil-eight,
}
use xvc_rs.Ftdi.Shift.Pins.{span, span_congr, span-append, reply_bit, replies, reply_counts}
use xvc_rs.Ftdi.Shift.Tail.{tail_calls, tail_counts}

-- A count of bits is replied in whole bytes.
abbrev pub reply_bytes : List ℕ → ℕ
reply_bytes [] = 0
reply_bytes (n ∷ counts) = div_ceil n 8 + reply_bytes counts

pub reply_bytes-append : (ns ms : List ℕ) → reply_bytes (ns ++ ms) ≡ reply_bytes ns + reply_bytes ms
reply_bytes-append [] ms = omega arith
reply_bytes-append (n ∷ ns) ms = omega (arith, reply_bytes-append ns ms)

pub replies-append :
    (rx : Bytes) (index : ℕ) (ns ms : List ℕ)
    → replies rx index (ns ++ ms) ≡ replies rx index ns ++ replies rx (index + reply_bytes ns) ms
replies-append rx index [] ms = (let e : index + 0 ≡ index = omega arith in rw e refl)
replies-append rx index (n ∷ ns) ms =
    let e : index + div_ceil n 8 + reply_bytes ns ≡ index + (div_ceil n 8 + reply_bytes ns) =
      omega arith in
    ap (λ l. span (reply_bit rx index n) 0 n ++ l)
      (replies-append rx (index + div_ceil n 8) ns ms ∙ rw e refl)
    ∙ sym (append_assoc (span (reply_bit rx index n) 0 n) _ _)

-- The counts are as good as the device's: they stand for the same bits, in as many bytes.
abbrev pub Tallies : List ℕ → List ℕ → Type 0
Tallies ns ms =
    ((rx : Bytes) (index : ℕ) → replies rx index ns ≡ replies rx index ms)
    × (reply_bytes ns ≡ reply_bytes ms)

pub Tallies-append :
    (ns ns' ms ms' : List ℕ) → Tallies ns ms → Tallies ns' ms' → Tallies (ns ++ ns') (ms ++ ms')
Tallies-append ns ns' ms ms' (a, b) (a', b') = (
  λ rx index.
      replies-append rx index ns ns'
      ∙ (rw (a rx index, a' rx (index + reply_bytes ns), b) refl
          ∙ sym (replies-append rx index ms ms')),
  omega (arith, reply_bytes-append ns ns', reply_bytes-append ms ms'),
)

-- A reply of whole bytes and some bits is one of the bytes and one of the bits.
split_reply :
    (rx : Bytes) (index n : ℕ)
    → span (reply_bit rx index n) 0 n
      ≡ span (reply_bit rx index (n / 8 * 8)) 0 (n / 8 * 8)
        ++ span (reply_bit rx (index + n / 8) (n % 8)) 0 (n % 8)
unfolding reply_bit
split_reply rx index n =
    let e : n / 8 * 8 + n % 8 ≡ n = omega arith in
    let e' : 0 + n / 8 * 8 ≡ n / 8 * 8 = omega arith in
    sym (rw (e, e') at (span-append (reply_bit rx index n) 0 (n / 8 * 8) (n % 8)))
    ∙ rw
        (
          span_congr (reply_bit rx index n) (reply_bit rx index (n / 8 * 8)) 0 0 (n / 8 * 8)
              (λ i lt.
                let a : ltb (n - (0 + i) / 8 * 8) 8 ≡ Bool.false = ground arith in
                let b : ltb (n / 8 * 8 - (0 + i) / 8 * 8) 8 ≡ Bool.false = ground arith in
                rw (a, b) refl),
          span_congr (reply_bit rx index n) (reply_bit rx (index + n / 8) (n % 8)) (n / 8 * 8) 0
              (n % 8)
              (λ i lt.
                let a : (n / 8 * 8 + i) / 8 ≡ n / 8 = omega arith in
                let b : (0 + i) / 8 ≡ 0 = omega arith in
                let c : (n / 8 * 8 + i) % 8 ≡ (0 + i) % 8 = omega arith in
                let d : n - n / 8 * 8 ≡ n % 8 - 0 * 8 = omega arith in
                let f : index + n / 8 + 0 ≡ index + n / 8 = omega arith in rw (a, b, c, d, f) refl),
        )
        refl

pub tail_counts-Tallies :
    (n : ℕ) (buf : Bytes)
    → n / 8 ≤ length buf
    → Tallies (tail_counts n) (reply_counts (tail_calls n buf))
tail_counts-Tallies n buf h = elim (Bool-cases (leb 8 n)) [
  | inr none ↦ elim (Bool-cases (n % 8 == 0)) [
    | inl whole ↦ (let z : n ≡ 0 = ground arith in rw (none, whole) (rw z (λ rx index. refl, refl)))
    | inr some_bits ↦
        let z : n % 8 ≡ n = ground arith in
        let nz : (n == 0) ≡ Bool.false = ground arith in
        rw (none, some_bits, nz) (rw z (λ rx index. refl, ground arith))
  ]
  | inl some_bytes ↦
      let nz : (n == 0) ≡ Bool.false = ground arith in
      elim (Bool-cases (n % 8 == 0)) [
        | inl whole ↦
            let z : n / 8 * 8 ≡ n = ground arith in
            rw (some_bytes, whole, nz, length-take (n / 8) buf h) (rw z (λ rx index. refl, refl))
        | inr some_bits ↦
            let sum : div_ceil n 8 + 0 ≡ div_ceil (n / 8 * 8) 8 + (div_ceil (n % 8) 8 + 0) =
              ground
                (arith, div_ceil-eight n, div_ceil-eight (n / 8 * 8), div_ceil-eight (n % 8)) in
            let whole_bytes : div_ceil (n / 8 * 8) 8 ≡ n / 8 = ground arith in
            rw (some_bytes, some_bits, nz, length-take (n / 8) buf h)
              (
                λ rx index.
                    rw (split_reply rx index n, whole_bytes)
                      (append-nil _
                        ∙ ap (λ l. span (reply_bit rx index (n / 8 * 8)) 0 (n / 8 * 8) ++ l)
                            (sym (append-nil _))),
                sum,
              )
      ]
]
