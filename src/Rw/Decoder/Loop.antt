-- ===== src/Rw/Decoder/Loop.antt =====
-- The decoder's loop around a parser, on bytes that arrive in pieces.
use xvc_rs.Prelude.{
  ℕ, zero, suc, ◌+◌, ◌≤◌, ◌<◌, ◌≡◌, ◌≢◌, refl, sym, ◌∙◌, ap, inl, inr, ◌⊎◌, true, List, [], ◌∷◌,
  ◌++◌, append_assoc, arith, Bytes, append-cases, eq-nil_left, length-append, ok, err, length,
  le→ltb,
}
use xvc_rs.Errors.{incomplete}
use xvc_rs.Codec.Parser.{Parser}
use xvc_rs.Rw.Decoder.{
  Decoder, ReadEvent, received, failed, temp_size, is_interrupted, read_retry, store, stored,
  read_chunk, Read, attempt, resume, parse_loop,
}

-- Reads as `Read::read` makes them: at least one byte and at most what `temp` holds, or an
-- interruption.
abbrev pub Arrive : List ReadEvent → Type 0
Arrive [] = Unit {0}
Arrive (received s ∷ reader) = (s ≢ []) × (length s ≤ temp_size) × Arrive reader
Arrive (failed e ∷ reader) = (is_interrupted e.kind ≡ true) × Arrive reader

abbrev pub arriving : List ReadEvent → Bytes
arriving [] = []
arriving (received s ∷ reader) = s ++ arriving reader
arriving (failed e ∷ reader) = arriving reader

-- Events that bring nothing.
read_retry_quiet :
    (reader : List ReadEvent)
    → Arrive reader
    → ((s : Bytes) × (later : List ReadEvent) × (read_retry reader ≡ (ok s, later))
        × (s ≢ [])
        × (length s ≤ temp_size)
        × Arrive later
        × (arriving reader ≡ s ++ arriving later)
        × (length later < length reader))
      ⊎ ((read_retry reader ≡ (ok [], [])) × (arriving reader ≡ []))
unfolding read_retry
read_retry_quiet [] h = inr (refl, refl)
read_retry_quiet (received s ∷ reader) (ne, le, h) =
    inl (s, reader, refl, ne, le, h, refl, omega arith)
read_retry_quiet (failed e ∷ reader) (i, h) = elim (read_retry_quiet reader h) [
  | inl (s, later, r, ne, le, h', j, lt) ↦ inl (s, later, rw i r, ne, le, h', j, omega arith)
  | inr (r, j) ↦ inr (rw i r, j)
]

module _ (mb ms : ℕ) where
  -- A decoder with these limits.
  abbrev pub holding : Bytes → Decoder
  holding buf = record { buf = buf; max_buf = mb; max_shift = ms }

  store_fits :
      (buf s : Bytes)
      → s ≢ []
      → length s ≤ temp_size
      → length (buf ++ s) ≤ mb
      → store (holding buf) s ≡ ok (holding (buf ++ s))
  unfolding store
  store_fits buf [] ne le fits = absurd (ne refl)
  store_fits buf (c ∷ s) ne le fits =
      let room : length (c ∷ s) + length buf ≤ mb = omega (arith, length-append {0} buf (c ∷ s)) in
      rw (le→ltb mb (length (c ∷ s) + length buf) room, le→ltb temp_size (length (c ∷ s)) le)
        (ground arith)

  module _ {A : Type 0} (parse : Parser A) (t : Bytes) (a : A) where
    -- The parser reads `a` off the front of `t`, and waits while a part of `t` is missing.
    abbrev pub Reads : Type 0
    Reads = (rest : Bytes) → parse (t ++ rest) ≡ (ok a, rest)

    abbrev pub Waits : Type 0
    Waits = (s q : Bytes) → t ≡ s ++ q → q ≢ [] → (s' : Bytes) × (parse s ≡ (err incomplete, s'))

    -- The result of a loop that found `a`: what is left of the slice, the buffer and the reader.
    abbrev pub Found : Bytes → Read (A × Bytes) → Type 0
    Found rest result =
        (r : Bytes) × (later : List ReadEvent) × (result ≡ (ok (a, r), holding (t ++ r), later))
        × (r ++ arriving later ≡ rest)
        × Arrive later

    pub parse_loop-Found :
        Reads
        → Waits
        → (rest : Bytes) (fuel : ℕ) (buf : Bytes) (reader : List ReadEvent) → length reader < fuel
        → Arrive reader
        → buf ++ arriving reader ≡ t ++ rest
        → length (t ++ rest) ≤ mb
        → Found rest (parse_loop parse fuel (holding buf) reader)
    unfolding parse_loop attempt resume read_chunk stored
    parse_loop-Found reads waits rest zero buf reader f h e fits = absurd (omega arith)
    parse_loop-Found reads waits rest (suc fuel) buf reader f h e fits =
        elim (append-cases buf (arriving reader) t rest e) [
          | inl (r, p, j) ↦ (r, reader, rw p (rw (reads r)), j, h)
          | inr (q, ne, p, j) ↦ elim (read_retry_quiet reader h) [
            | inr (_, none_left) ↦ absurd (ne (eq-nil_left q rest (sym j ∙ none_left)))
            | inl (s, later, r, ne', le, h', j', lt) ↦
                let whole : (buf ++ s) ++ arriving later ≡ t ++ rest =
                  append_assoc buf s (arriving later) ∙ (ap (λ x. buf ++ x) (sym j') ∙ e) in
                let (r', later', found, joins, arrive) =
                  parse_loop-Found reads waits rest fuel (buf ++ s) later (omega arith) h' whole
                    fits in
                (
                  r',
                  later',
                  rw ((waits buf q p ne).1) (
                      rw r (
                        rw
                          (store_fits buf s ne' le (
                            omega (
                              arith,
                              length-append {0} (buf ++ s) (arriving later),
                              ap length whole,
                            )))
                          found)),
                  joins,
                  arrive,
                )
          ]
        ]
