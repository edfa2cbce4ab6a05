-- ===== src/DebugBridge/MemoryMapped/Words.antt =====
-- The loop of `shift_data` against a specification by 32-bit words.
use xvc_rs.Prelude.{
  ℕ, suc, ◌+◌, ◌-◌, ◌≤◌, ◌≡◌, refl, sym, ◌∙◌, ap, List, [], ◌∷◌, ◌++◌, append_assoc, arith, Bytes,
  Outcome, ok, err, panic, length, take, drop, length-append, length-take, take_left, drop-drop,
  drop_left, le→leb, le→ltb, lt→leb, div_ceil, div_ceil-eight, length-drop, ==_same, ◌/◌,
  to_le_bytes, from_le_bytes,
}
use xvc_rs.Errors.{IoError}
use xvc_rs.DebugBridge.MemoryMapped.{
  Registers, Cursor, write_cursor, exchange, Shifted, stored, received, words, with_words,
  shift_words, shift_data, u32_from_u8_slice,
}

-- A cursor that has written `done` and has `todo` in front of it.
abbrev pub at : Bytes → Bytes → Cursor
at done todo = record { buf = done ++ todo; pos = length done }

write_cursor-at :
    (done todo s : Bytes)
    → length s ≤ length todo
    → write_cursor (at done todo) s ≡ (ok tt, at (done ++ s) (drop (length s) todo))
unfolding write_cursor
write_cursor-at done todo s h =
    let room : length done + length s ≤ length (done ++ todo) =
      omega (arith, length-append {0} done todo) in
    let rest : drop (length done + length s) (done ++ todo) ≡ drop (length s) todo =
      drop-drop (length done) (length s) (done ++ todo)
      ∙ ap (drop (length s)) (drop_left done todo) in
    rw (le→leb (length done + length s) (length (done ++ todo)) room, take_left done todo, rest)
      (rw (append_assoc done s (drop (length s) todo), length-append {0} done s))

module _ {H : Type 0} (mem : Registers H) where
  -- What a run of words comes to: its result, the bytes that it brought, and the bridge.
  abbrev pub Played : Type 0
  Played = Outcome IoError (Unit {0}) × Bytes × H

  abbrev pub onto : Bytes → Played → Played
  onto read (r, out, h) = (r, read ++ out, h)

  abbrev pub heard : ℕ → Outcome IoError ℕ × H → (H → Played) → Played
  heard n (ok word, h) rest = onto (take n (to_le_bytes word)) (rest h)
  heard n (err e, h) rest = (err e, [], h)
  heard n (panic, h) rest = (panic, [], h)

  -- `bits`, and the words of TMS and TDI.
  unfoldable pub play : List (ℕ × ℕ × ℕ) → H → Played
  play [] h = (ok tt, [], h)
  play ((bits, tms, tdi) ∷ rounds) h =
      heard (div_ceil bits 8) (exchange mem bits tms tdi h) (play rounds)

  -- A result in the buffer: behind what was written it is as it was.
  abbrev pub place : Bytes → Bytes → Played → Shifted mem
  place done todo (r, out, h) = (r, done ++ (out ++ drop (length out) todo), h)

  place-onto :
      (done todo read : Bytes) (p : Played)
      → place (done ++ read) (drop (length read) todo) p ≡ place done todo (onto read p)
  place-onto done todo read (r, out, h) = λ i. (r, same i, h)
    where
      behind : drop (length (read ++ out)) todo ≡ drop (length out) (drop (length read) todo)
      behind =
          ap (λ n. drop n todo) (length-append read out) ∙ drop-drop (length read) (length out) todo

      same :
          (done ++ read) ++ (out ++ drop (length out) (drop (length read) todo))
          ≡ done ++ ((read ++ out) ++ drop (length (read ++ out)) todo)
      same = rw behind (simp append_assoc)

  received-heard :
      (n : ℕ) (x : Outcome IoError ℕ × H) (done todo : Bytes) (next : Cursor → H → Shifted mem)
      (rest : H → Played)
      → n ≤ 4
      → n ≤ length todo
      → ((read : Bytes) (h : H)
          → length read ≡ n
          → next (at (done ++ read) (drop n todo)) h ≡ place (done ++ read) (drop n todo) (rest h))
      → received mem n x (at done todo) next ≡ place done todo (heard n x rest)
  unfolding received stored
  received-heard n (ok word, h) done todo next rest four room k =
      let full : length (take n (to_le_bytes word)) ≡ n =
        length-take n (to_le_bytes word) (omega arith) in
      let same : place (done ++ take n (to_le_bytes word)) (drop n todo) (rest h)
          ≡ place done todo (onto (take n (to_le_bytes word)) (rest h)) =
        ap (λ m. place (done ++ take n (to_le_bytes word)) (drop m todo) (rest h)) (sym full)
        ∙ place-onto done todo (take n (to_le_bytes word)) (rest h) in
      rw (le→leb n 4 four) (
        rw (write_cursor-at done todo (take n (to_le_bytes word)) (omega (arith, full)))
          (rw full (k (take n (to_le_bytes word)) h full ∙ same)))
  received-heard n (err e, h) done todo next rest four room k = refl
  received-heard n (panic, h) done todo next rest four room k = refl

-- The words of a shift: 32 bits each, and what is left in the last one.
unfoldable pub rounds : ℕ → Bytes → Bytes → List (ℕ × ℕ × ℕ)
rounds n (a ∷ b ∷ c ∷ d ∷ e ∷ tms) (a' ∷ b' ∷ c' ∷ d' ∷ e' ∷ tdi) =
    (32, from_le_bytes a b c d, from_le_bytes a' b' c' d') ∷ rounds (n - 32) (e ∷ tms) (e' ∷ tdi)
rounds n (a ∷ b ∷ c ∷ d ∷ []) (a' ∷ b' ∷ c' ∷ d' ∷ []) =
    (n, from_le_bytes a b c d, from_le_bytes a' b' c' d') ∷ []
rounds n (a ∷ b ∷ c ∷ []) (a' ∷ b' ∷ c' ∷ []) =
    (n, from_le_bytes a b c 0, from_le_bytes a' b' c' 0) ∷ []
rounds n (a ∷ b ∷ []) (a' ∷ b' ∷ []) = (n, from_le_bytes a b 0 0, from_le_bytes a' b' 0 0) ∷ []
rounds n (a ∷ []) (a' ∷ []) = (n, from_le_bytes a 0 0 0, from_le_bytes a' 0 0 0) ∷ []
rounds n tms tdi = []

module _ {H : Type 0} (mem : Registers H) where
  shift_words-rounds :
      (fuel n : ℕ) (tms tdi done todo : Bytes) (h : H)
      → length tms ≤ fuel
      → div_ceil n 8 ≡ length tms
      → length tdi ≡ length tms
      → length todo ≡ length tms
      → shift_words mem fuel n tms tdi (at done todo) h
        ≡ place mem done todo (play mem (rounds n tms tdi) h)
  unfolding shift_words with_words words u32_from_u8_slice rounds play
  shift_words-rounds fuel n [] [] done todo h f e i o = refl
  shift_words-rounds (suc fuel) n (a ∷ []) (a' ∷ []) done todo h f e i o = rw e (
      received-heard mem 1 (exchange mem n _ _ h) done todo _ _ (omega arith) (omega arith)
        (λ read h' len. rw (le→ltb n n (omega arith))))
  shift_words-rounds (suc fuel) n (a ∷ b ∷ []) (a' ∷ b' ∷ []) done todo h f e i o = rw e (
      received-heard mem 2 (exchange mem n _ _ h) done todo _ _ (omega arith) (omega arith)
        (λ read h' len. rw (le→ltb n n (omega arith))))
  shift_words-rounds (suc fuel) n (a ∷ b ∷ c ∷ []) (a' ∷ b' ∷ c' ∷ []) done todo h f e i o = rw e (
      received-heard mem 3 (exchange mem n _ _ h) done todo _ _ (omega arith) (omega arith)
        (λ read h' len. rw (le→ltb n n (omega arith))))
  shift_words-rounds (suc fuel) n (a ∷ b ∷ c ∷ d ∷ []) (a' ∷ b' ∷ c' ∷ d' ∷ []) done todo h f e i
        o =
      rw e (
        received-heard mem 4 (exchange mem n _ _ h) done todo _ _ (omega arith) (omega arith)
          (λ read h' len. rw (le→ltb n n (omega arith))))
  shift_words-rounds (suc fuel) n (a ∷ b ∷ c ∷ d ∷ x ∷ tms) (a' ∷ b' ∷ c' ∷ d' ∷ x' ∷ tdi) done todo
        h f e i o =
      let long : div_ceil n 8 ≡ (n + 7) / 8 = div_ceil-eight n in
      let left : div_ceil (n - 32) 8 ≡ length (x ∷ tms) = omega (arith, div_ceil-eight (n - 32)) in
      rw (lt→leb (length (a ∷ b ∷ c ∷ d ∷ x ∷ tms)) 4 (omega arith)) (
        rw (le→leb 4 (length (a ∷ b ∷ c ∷ d ∷ x ∷ tms)) (omega arith)) (
          rw (le→leb 4 (length (a' ∷ b' ∷ c' ∷ d' ∷ x' ∷ tdi)) (omega arith)) (
            received-heard mem 4 (exchange mem 32 _ _ h) done todo _
              (play mem (rounds (n - 32) (x ∷ tms) (x' ∷ tdi))) (omega arith) (omega arith)
              (λ read h' len. rw (le→ltb n 32 (omega arith)) (
                shift_words-rounds fuel (n - 32) (x ∷ tms) (x' ∷ tdi) (done ++ read) (drop 4 todo)
                  h' (omega arith) left (omega arith) (omega (arith, length-drop {0} 4 todo)))))))
  shift_words-rounds fuel n tms tdi done todo h f e i o = absurd (omega arith)

  -- If the three vectors have one byte for each eight bits begun, `shift_data` of the memory-mapped
  -- backend does what playing the words of the shift does, 32 bits each and the bits that are left
  -- in the last one, in order and up to a word that fails: the same result and the same bridge, with
  -- the bytes that the words brought at the front of `tdo` and the rest of `tdo` as it was.
  pub shift_data-rounds :
      (n : ℕ) (tms tdi tdo : Bytes) (h : H)
      → length tms ≡ div_ceil n 8
      → length tdi ≡ div_ceil n 8
      → length tdo ≡ div_ceil n 8
      → shift_data mem n tms tdi tdo h ≡ place mem [] tdo (play mem (rounds n tms tdi) h)
  unfolding shift_data
  shift_data-rounds n tms tdi tdo h hs hi ho =
      rw (==_same _ _ hs, ==_same _ _ hi, ==_same _ _ ho)
        (shift_words-rounds (length tms) n tms tdi [] tdo h (omega arith) (sym hs) (hi ∙ sym hs)
          (ho ∙ sym hs))
