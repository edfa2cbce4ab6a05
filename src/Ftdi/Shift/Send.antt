-- ===== src/Ftdi/Shift/Send.antt =====
-- `shift_chunks` makes these commands of what it stashed, and how many bytes they are.
use xvc_rs.Prelude.{
  ℕ, ◌+◌, ◌/◌, ◌%◌, ◌≤◌, ◌<◌, ◌≡◌, refl, sym, ap, ◌∙◌, true, ◌==◌, if◌then◌else◌, leb, List, [],
  ◌∷◌, ◌++◌, append-nil, append_assoc, arith, Bytes, ok, length, take, length-take, Bool-cases, inl,
  inr, div_ceil, div_ceil-eight,
}
use xvc_rs.Ftdi.Bits.Vector.{Place, byte_at}
use xvc_rs.Ftdi.Shift.{Call, Mpsse, Chunk, Run, send_tdi, send_bytes, send_rest}
use xvc_rs.Ftdi.Shift.Tail.{byte_calls, rest_calls, tail_calls, tail_counts, index-byte_at}

module _ (mpsse : Mpsse) where
  open mpsse use {as_slice, length-clock_data, length-clock_bits}

  length-byte_calls :
      (calls : List Call) (n : ℕ) (buf : Bytes)
      → n / 8 ≤ length buf
      → length (as_slice (calls ++ byte_calls n buf))
        ≡ length (as_slice calls) + (if leb 8 n then 3 + n / 8 else 0)
  length-byte_calls calls n buf h = elim (Bool-cases (leb 8 n)) [
    | inl some_bytes ↦
        rw some_bytes
          (omega (arith, length-clock_data calls (take (n / 8) buf), length-take (n / 8) buf h))
    | inr none ↦ rw (none, append-nil calls) (omega arith)
  ]

  length-rest_calls :
      (calls : List Call) (n : ℕ) (buf : Bytes)
      → length (as_slice (calls ++ rest_calls n buf))
        ≡ length (as_slice calls) + (if n % 8 == 0 then 0 else 3)
  length-rest_calls calls n buf = elim (Bool-cases (n % 8 == 0)) [
    | inl whole ↦ rw (whole, append-nil calls) (omega arith)
    | inr some_bits ↦ rw some_bits (length-clock_bits calls (byte_at buf (n / 8)) (n % 8))
  ]

  pub length-tail_calls :
      (calls : List Call) (n : ℕ) (buf : Bytes)
      → n / 8 ≤ length buf
      → length (as_slice (calls ++ tail_calls n buf))
        ≡ length (as_slice calls)
          + (if leb 8 n then 3 + n / 8 else 0)
          + (if n % 8 == 0 then 0 else 3)
  length-tail_calls calls n buf h =
      ap (λ l. length (as_slice l)) (sym (append_assoc calls (byte_calls n buf) (rest_calls n buf)))
      ∙ (length-rest_calls (calls ++ byte_calls n buf) n buf
          ∙ ap (λ x. x + (if n % 8 == 0 then 0 else 3)) (length-byte_calls calls n buf h))

count : (w n : ℕ) → w + n / 8 + (if n % 8 == 0 then 0 else 1) ≡ w + div_ceil n 8
count w n = ground (arith, div_ceil-eight n)

-- The chunk with `n` more bits in its commands.
abbrev pub sent : Chunk → ℕ → Bytes → Chunk
sent c n buf = record c {
  calls = c.calls ++ tail_calls n buf;
  bitcounts = c.bitcounts ++ tail_counts n;
  wanted = c.wanted + div_ceil n 8;
}

chunk_eq :
    (left : ℕ) (place : Place) {calls calls' : List Call} {counts counts' : List ℕ}
    {wanted wanted' : ℕ}
    → calls ≡ calls'
    → counts ≡ counts'
    → wanted ≡ wanted'
    → ◌≡◌ {A = Chunk}
        (record { calls = calls; bitcounts = counts; wanted = wanted; left = left; place = place })
        (record {
          calls = calls';
          bitcounts = counts';
          wanted = wanted';
          left = left;
          place = place;
        })
chunk_eq left place e f g =
    λ t. record { calls = e t; bitcounts = f t; wanted = g t; left = left; place = place }

module _ {E : Type 0} (mpsse : Mpsse) (out_size : ℕ) (tms tdi : Bytes) where
  send_bytes_lem :
      (c : Chunk) (n : ℕ) (buf : Bytes)
      → n / 8 < length buf
      → send_bytes {E = E} mpsse out_size tms tdi c n buf
        ≡ ok (record c { calls = c.calls ++ byte_calls n buf; wanted = c.wanted + n / 8 })
  unfolding send_bytes
  send_bytes_lem c n buf h = elim (Bool-cases (leb 8 n)) [
    | inl some_bytes ↦
        (let fits : leb (n / 8) (length buf) ≡ true = ground arith in rw (some_bytes, fits) refl)
    | inr none ↦
        rw none (ap ok (chunk_eq c.left c.place (sym (append-nil c.calls)) refl (ground arith)))
  ]

  send_rest_lem :
      (c : Chunk) (n : ℕ) (buf : Bytes)
      → n / 8 < length buf
      → send_rest {E = E} mpsse out_size tms tdi c n buf
        ≡ ok (record c {
          calls = c.calls ++ rest_calls n buf;
          wanted = c.wanted + (if n % 8 == 0 then 0 else 1);
        })
  unfolding send_rest
  send_rest_lem c n buf h = elim (Bool-cases (n % 8 == 0)) [
    | inl whole ↦
        rw whole (ap ok (chunk_eq c.left c.place (sym (append-nil c.calls)) refl (omega arith)))
    | inr some_bits ↦ rw (some_bits, index-byte_at {E = E} buf (n / 8) h) refl
  ]

  pub send_tdi_lem :
      (c : Chunk) (r : Run)
      → r.count / 8 < length r.buf
      → send_tdi {E = E} mpsse out_size tms tdi c r
        ≡ ok (sent (record c { left = r.left; place = r.place }) r.count r.buf)
  unfolding send_tdi
  send_tdi_lem c r h = elim (Bool-cases (r.count == 0)) [
    | inl nothing ↦
        let z : r.count ≡ 0 = ground arith in
        rw (nothing, z)
          (ap ok (
            chunk_eq r.left r.place (sym (append-nil c.calls)) (sym (append-nil c.bitcounts))
              (omega arith)))
    | inr some_bits ↦ rw some_bits (
        rw
          (send_bytes_lem
            (record {
              calls = c.calls;
              bitcounts = c.bitcounts ++ r.count ∷ [];
              wanted = c.wanted;
              left = r.left;
              place = r.place;
            })
            r.count r.buf h)
          (send_rest_lem
              (record {
                calls = c.calls ++ byte_calls r.count r.buf;
                bitcounts = c.bitcounts ++ r.count ∷ [];
                wanted = c.wanted + r.count / 8;
                left = r.left;
                place = r.place;
              })
              r.count r.buf h
            ∙ ap ok (
                chunk_eq r.left r.place
                  (append_assoc c.calls (byte_calls r.count r.buf) (rest_calls r.count r.buf)) refl
                  (count c.wanted r.count))))
  ]
