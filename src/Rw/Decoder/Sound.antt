-- ===== src/Rw/Decoder/Sound.antt =====
-- What the blocking decoder of xvc-protocol/src/rw.rs returns is what the reader's bytes spell.
use xvc_rs.Prelude.{
  ℕ, zero, suc, ◌+◌, ◌≡◌, refl, ap, ◌∙◌, inl, inr, List, [], ◌∷◌, ◌++◌, append_assoc, Bytes,
  Outcome, ok, err, panic, length, ltb, ◌==◌, Bool-cases,
}
use xvc_rs.Errors.{IoError, incomplete, ReadError}
use xvc_rs.Codec.Parser.{Parser, ParseResult}
use xvc_rs.Rw.Decoder.{
  Decoder, ReadEvent, received, failed, temp_size, is_interrupted, read_retry, store, stored,
  read_chunk, Read, attempt, resume, parse_loop, run_loop,
}
use xvc_rs.Rw.Decoder.Loop.{arriving}

-- The bytes that were read are those that the reader brings first.
abbrev Kept : Bytes → Outcome IoError Bytes × List ReadEvent → Type 0
Kept total (ok s, later) = s ++ arriving later ≡ total
Kept total (err e, later) = Unit
Kept total (panic, later) = Unit

read_retry-Kept : (reader : List ReadEvent) → Kept (arriving reader) (read_retry reader)
unfolding read_retry
read_retry-Kept [] = refl
read_retry-Kept (received s ∷ reader) = refl
read_retry-Kept (failed e ∷ reader) = elim (Bool-cases (is_interrupted e.kind)) [
  | inl i ↦ rw i (read_retry-Kept reader)
  | inr i ↦ rw i tt
]

-- A decoder whose buffer and reader bring these bytes, with this limit.
abbrev pub Brings : Bytes → ℕ → Decoder → List ReadEvent → Type 0
Brings total max d reader = (d.buf ++ arriving reader ≡ total) × (d.max_shift ≡ max)

abbrev Grown : Bytes → ℕ → Outcome ReadError Decoder × List ReadEvent → Type 0
Grown total max (ok d, later) = Brings total max d later
Grown total max (err e, later) = Unit
Grown total max (panic, later) = Unit

store-Grown :
    (d : Decoder) (s : Bytes) (later : List ReadEvent) (total : Bytes) (max : ℕ)
    → d.buf ++ (s ++ arriving later) ≡ total
    → d.max_shift ≡ max
    → Grown total max (store d s, later)
unfolding store
store-Grown d s later total max e m = elim (Bool-cases (length s == 0)) [
  | inl a ↦ rw a tt
  | inr a ↦ elim (Bool-cases (ltb d.max_buf (length s + length d.buf))) [
    | inl b ↦ rw (a, b) tt
    | inr b ↦ elim (Bool-cases (ltb temp_size (length s))) [
      | inl c ↦ rw (a, b, c) tt
      | inr c ↦ rw (a, b, c) (append_assoc d.buf s (arriving later) ∙ e, m)
    ]
  ]
]

stored-Grown :
    (d : Decoder) (reader : List ReadEvent) (total : Bytes) (max : ℕ)
    (r : Outcome IoError Bytes × List ReadEvent)
    → Brings total max d reader
    → Kept (arriving reader) r
    → Grown total max (stored d r)
unfolding stored
stored-Grown d reader total max (ok s, later) (e, m) k =
    store-Grown d s later total max (ap (λ t. d.buf ++ t) k ∙ e) m
stored-Grown d reader total max (err x, later) b k = tt
stored-Grown d reader total max (panic, later) b k = tt

read_chunk-Grown :
    (d : Decoder) (reader : List ReadEvent) (total : Bytes) (max : ℕ)
    → Brings total max d reader
    → Grown total max (read_chunk d reader)
unfolding read_chunk
read_chunk-Grown d reader total max b =
    stored-Grown d reader total max (read_retry reader) b (read_retry-Kept reader)

module _ {A : Type 0} (parse : Parser A) (total : Bytes) (max : ℕ) where
  -- A result that the parser gave on the buffer, which is still there.
  abbrev pub Parsed : Read (A × Bytes) → Type 0
  Parsed (ok (a, slice), d, later) = (parse d.buf ≡ (ok a, slice)) × Brings total max d later
  Parsed (err e, d, later) = Unit
  Parsed (panic, d, later) = Unit

  resume-Parsed :
      (d : Decoder) (r : Outcome ReadError Decoder × List ReadEvent)
      (next : Decoder → List ReadEvent → Read (A × Bytes))
      → Grown total max r
      → ((d : Decoder) (later : List ReadEvent) → Brings total max d later → Parsed (next d later))
      → Parsed (resume d r next)
  unfolding resume
  resume-Parsed d (ok d', later) next b k = k d' later b
  resume-Parsed d (err e, later) next b k = tt
  resume-Parsed d (panic, later) next b k = tt

  attempt-Parsed :
      (p : ParseResult A × Bytes) (d : Decoder) (reader : List ReadEvent)
      (more : Unit {0} → Read (A × Bytes))
      → parse d.buf ≡ p
      → Brings total max d reader
      → Parsed (more tt)
      → Parsed (attempt p d reader more)
  unfolding attempt
  attempt-Parsed (ok a, slice) d reader more e b m = (e, b)
  attempt-Parsed (err incomplete, slice) d reader more e b m = m
  attempt-Parsed (err _, slice) d reader more e b m = tt
  attempt-Parsed (panic, slice) d reader more e b m = tt

  parse_loop-Parsed :
      (fuel : ℕ) (d : Decoder) (reader : List ReadEvent)
      → Brings total max d reader
      → Parsed (parse_loop parse fuel d reader)
  unfolding parse_loop
  parse_loop-Parsed zero d reader b = tt
  parse_loop-Parsed (suc fuel) d reader b = attempt-Parsed (parse d.buf) d reader _ refl b (
      resume-Parsed d (read_chunk d reader) (parse_loop parse fuel)
        (read_chunk-Grown d reader total max b) (λ d' later b'. parse_loop-Parsed fuel d' later b'))

  pub run_loop-Parsed :
      (d : Decoder) (reader : List ReadEvent)
      → Brings total max d reader
      → Parsed (run_loop parse d reader)
  run_loop-Parsed d reader b = parse_loop-Parsed (suc (length reader)) d reader b
