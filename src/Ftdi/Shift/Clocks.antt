-- ===== src/Ftdi/Shift/Clocks.antt =====
-- What a chunk's commands clock out, and the bytes that reply to them.
use xvc_rs.Prelude.{
  ℕ, ◌+◌, ◌/◌, ◌≤◌, ◌<◌, ◌≡◌, refl, sym, ◌∙◌, Bool, true, ◌&&◌, ◌==◌, ltb, lt→ltb, List, [], ◌∷◌,
  ◌++◌, arith, Bytes, length, Bool-cases, inl, inr, div_ceil, All, All-append,
}
use xvc_rs.Ftdi.Bits.{digit}
use xvc_rs.Ftdi.Bits.Vector.{bit}
use xvc_rs.Ftdi.Shift.{Call, clock_tms}
use xvc_rs.Ftdi.Shift.Pins.{
  span, span_congr, span_const, span-append, clocked_tdi, clocked_tdi-append, clocked_tms,
  clocked_tms-append, held_by, reply_counts, reply_counts-append,
}
use xvc_rs.Ftdi.Shift.Tallied.{reply_bytes, Tallies, Tallies-append, tail_counts-Tallies}
use xvc_rs.Ftdi.Shift.Tail.{tail_calls, tail_counts, clocked_tdi-tail_calls, clocked_tms-tail_calls}

abbrev pub total : List ℕ → ℕ
total [] = 0
total (n ∷ counts) = n + total counts

pub total-append : (ns ms : List ℕ) → total (ns ++ ms) ≡ total ns + total ms
total-append [] ms = omega arith
total-append (n ∷ ns) ms = omega (arith, total-append ns ms)

abbrev pub Positive : List ℕ → Type 0
Positive = All (λ n. 0 < n)

pub total-tail_counts : (n : ℕ) → total (tail_counts n) ≡ n
total-tail_counts n = elim (Bool-cases (n == 0)) [
  | inl nothing ↦ rw nothing (ground arith)
  | inr some_bits ↦ rw some_bits (omega arith)
]

pub reply_bytes-tail_counts : (n : ℕ) → reply_bytes (tail_counts n) ≡ div_ceil n 8
reply_bytes-tail_counts n = elim (Bool-cases (n == 0)) [
  | inl nothing ↦ (let z : n ≡ 0 = ground arith in rw z refl)
  | inr some_bits ↦ rw some_bits (omega arith)
]

pub tail_counts-Positive : (n : ℕ) → Positive (tail_counts n)
tail_counts-Positive n = elim (Bool-cases (n == 0)) [
  | inl nothing ↦ rw nothing tt
  | inr some_bits ↦ rw some_bits (ground arith, tt)
]

module _ (tms tdi : Bytes) where
  -- The calls `new` clock the `n` bits from `p` on out, on both pins, and `counts` are their numbers of
  -- bits, which the device replies.
  abbrev pub Clocks : List Call → List ℕ → ℕ → ℕ → Type 0
  Clocks new counts p n =
      (clocked_tdi new ≡ span (bit tdi) p n)
      × ((held : Bool) → clocked_tms held new ≡ span (bit tms) p n)
      × (total counts ≡ n)
      × Positive counts
      × Tallies counts (reply_counts new)

  pub Clocks-append :
      (new new' : List Call) (counts counts' : List ℕ) (p m n : ℕ)
      → Clocks new counts p m
      → Clocks new' counts' (p + m) n
      → Clocks (new ++ new') (counts ++ counts') p (m + n)
  Clocks-append new new' counts counts' p m n (a, b, c, d, f) (a', b', c', d', f') = (
    clocked_tdi-append new new' ∙ rw (a, a') (span-append (bit tdi) p m n),
    λ held.
        clocked_tms-append held new new'
        ∙ rw (b held, b' (held_by held new)) (span-append (bit tms) p m n),
    omega (arith, total-append counts counts'),
    All-append (λ n. 0 < n) counts counts' d d',
    rw (reply_counts-append new new')
        (Tallies-append counts counts' (reply_counts new) (reply_counts new') f f'),
  )

  -- What a round has, a TMS command and the TDI bits behind it, does.
  pub Clocks-round :
      (p m n bits : ℕ) (buf : Bytes)
      → ((i : ℕ) → i < m + 1 → bit tdi (p + i) ≡ bit tdi p)
      → ((j : ℕ) → j < m + 1 → digit bits j ≡ bit tms (p + j))
      → digit bits (m + 1) ≡ bit tms (p + m)
      → n / 8 ≤ length buf
      → ((j : ℕ) → bit buf j ≡ (ltb j n && bit tdi (p + (m + 1) + j)))
      → ((i : ℕ) → i < n → bit tms (p + (m + 1) + i) ≡ bit tms (p + m))
      → Clocks
          (clock_tms bits (bit tdi p) (m + 1) ∷ tail_calls n buf)
          ((m + 1) ∷ tail_counts n)
          p
          (m + 1 + n)
  Clocks-round p m n bits buf same_tdi own last fits carries held = (
    rw
        (
          clocked_tdi-tail_calls n buf fits,
          sym (span_const (bit tdi) (bit tdi p) p (m + 1) same_tdi),
          span_congr (bit buf) (bit tdi) 0 (p + (m + 1)) n (λ i lt.
              let e : 0 + i ≡ i = omega arith in
              let e' : ltb i n ≡ true = lt→ltb i n lt in rw e (carries i ∙ rw e' refl)),
        )
        (span-append (bit tdi) p (m + 1) n),
    λ h.
        rw
          (
            clocked_tms-tail_calls (digit bits (m + 1)) n buf fits,
            last,
            sym (span_const (bit tms) (bit tms (p + m)) (p + (m + 1)) n held),
            span_congr (digit bits) (bit tms) 0 p (m + 1)
                (λ i lt. let e : 0 + i ≡ i = omega arith in rw e (own i lt)),
          )
          (span-append (bit tms) p (m + 1) n),
    omega (arith, total-tail_counts n),
    (omega arith, tail_counts-Positive n),
    Tallies-append ((m + 1) ∷ []) (tail_counts n) ((m + 1) ∷ []) (reply_counts (tail_calls n buf))
        (λ rx index. refl, refl) (tail_counts-Tallies n buf fits),
  )
