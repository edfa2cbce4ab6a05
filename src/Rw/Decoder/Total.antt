-- ===== src/Rw/Decoder/Total.antt =====
-- The blocking decoder of xvc-protocol/src/rw.rs on any reader: its fuel and its panics.
use xvc_rs.Prelude.{
  ℕ, zero, suc, ◌+◌, ◌≤◌, ◌<◌, ◌≡◌, refl, true, false, inl, inr, ◌⊎◌, List, [], ◌∷◌, ◌++◌, arith,
  Bytes, Outcome, ok, err, panic, Safe, length, ltb, Bool-cases,
}
use xvc_rs.Errors.{IoError, incomplete, ReadError}
use xvc_rs.Protocol.{XvcCommand}
use xvc_rs.Codec.Parser.{Parser, ParseResult}
use xvc_rs.Codec.Command
use xvc_rs.Codec.SetTck
use xvc_rs.Codec.Shift
use xvc_rs.Codec.Info
use xvc_rs.Codec.Safe.{command-Safe, set_tck-Safe, shift-Safe, info-Safe}
use xvc_rs.Rw.Decoder.{
  Decoder, ReadEvent, received, failed, temp_size, is_interrupted, read_retry, store, stored,
  read_chunk, Read, then_read, attempt, resume, parse_loop, run_loop, read_message, read_payload,
  read_xvc_info,
}

-- No read brings more than `temp` holds. Reads may fail, be empty, or be interrupted.
abbrev pub Fits : List ReadEvent → Type 0
Fits [] = Unit {0}
Fits (received s ∷ reader) = (length s ≤ temp_size) × Fits reader
Fits (failed e ∷ reader) = Fits reader

-- A result that is no panic, with a reader that can be used again.
abbrev pub Settled : {A : Type 0} → Read A → Type 0
Settled r = Safe r.0 × Fits r.2

-- What a round of reading leaves: bytes that fit and a shorter reader, or an end.
abbrev Retried : ℕ → Outcome IoError Bytes × List ReadEvent → Type 0
Retried n (ok s, later) =
    (length s ≤ temp_size) × Fits later × ((length later < n) ⊎ (length s ≡ 0))
Retried n (err e, later) = Fits later
Retried n (panic, later) = ⊥

read_retry-Retried :
    (reader : List ReadEvent) (n : ℕ)
    → length reader ≤ n
    → Fits reader
    → Retried n (read_retry reader)
unfolding read_retry
read_retry-Retried [] n h f = (omega arith, tt, inr refl)
read_retry-Retried (received s ∷ reader) n h (le, f) = (le, f, inl h)
read_retry-Retried (failed e ∷ reader) n h f = elim (Bool-cases (is_interrupted e.kind)) [
  | inl i ↦ rw i (read_retry-Retried reader n (omega arith) f)
  | inr i ↦ rw i f
]

-- What `read_chunk` leaves.
abbrev Chunked : ℕ → Outcome ReadError Decoder × List ReadEvent → Type 0
Chunked n (ok d, later) = Fits later × (length later < n)
Chunked n (err e, later) = Fits later
Chunked n (panic, later) = ⊥

module _ (d : Decoder) (c : ℕ) (s : Bytes) where
  abbrev need : ℕ
  need = length (c ∷ s) + length d.buf

  store_over :
      ltb d.max_buf need ≡ true → store d (c ∷ s) ≡ err (ReadError.too_many_bytes d.max_buf need)
  unfolding store
  store_over h = ground arith

  store_room :
      ltb d.max_buf need ≡ false
      → length (c ∷ s) ≤ temp_size
      → store d (c ∷ s) ≡ ok (record d { buf = d.buf ++ c ∷ s })
  unfolding store
  store_room h le = ground arith

store-Chunked :
    (d : Decoder) (s : Bytes) (later : List ReadEvent) (n : ℕ)
    → length s ≤ temp_size
    → Fits later
    → (length later < n) ⊎ (length s ≡ 0)
    → Chunked n (store d s, later)
store-Chunked d [] later n le f shorter = unfold store in f
store-Chunked d (c ∷ s) later n le f (inr e) = absurd (omega arith)
store-Chunked d (c ∷ s) later n le f (inl lt) = elim (Bool-cases (ltb d.max_buf (need d c s))) [
  | inl over ↦ rw (store_over d c s over) f
  | inr room ↦ rw (store_room d c s room le) (f, lt)
]

stored-Chunked :
    (d : Decoder) (n : ℕ) (r : Outcome IoError Bytes × List ReadEvent)
    → Retried n r
    → Chunked n (stored d r)
unfolding stored
stored-Chunked d n (ok s, later) (le, f, shorter) = store-Chunked d s later n le f shorter
stored-Chunked d n (err e, later) f = f
stored-Chunked d n (panic, later) f = f

read_chunk-Chunked :
    (d : Decoder) (reader : List ReadEvent)
    → Fits reader
    → Chunked (length reader) (read_chunk d reader)
unfolding read_chunk
read_chunk-Chunked d reader f =
    stored-Chunked d (length reader) (read_retry reader)
      (read_retry-Retried reader (length reader) (omega arith) f)

module _ {A : Type 0} (parse : Parser A) (safe : (s : Bytes) → Safe (parse s).0) where
  resume-Settled :
      (d : Decoder) (n : ℕ) (r : Outcome ReadError Decoder × List ReadEvent)
      (next : Decoder → List ReadEvent → Read (A × Bytes))
      → Chunked n r
      → ((d : Decoder) (later : List ReadEvent)
          → length later < n
          → Fits later
          → Settled (next d later))
      → Settled (resume d r next)
  unfolding resume
  resume-Settled d n (ok d', later) next (f, lt) k = k d' later lt f
  resume-Settled d n (err e, later) next f k = (tt, f)
  resume-Settled d n (panic, later) next h k = absurd h

  attempt-Settled :
      (p : ParseResult A × Bytes) (d : Decoder) (reader : List ReadEvent)
      (more : Unit {0} → Read (A × Bytes))
      → Safe p.0
      → Fits reader
      → Settled (more tt)
      → Settled (attempt p d reader more)
  unfolding attempt
  attempt-Settled (ok a, slice) d reader more h f m = (tt, f)
  attempt-Settled (err incomplete, slice) d reader more h f m = m
  attempt-Settled (err _, slice) d reader more h f m = (tt, f)
  attempt-Settled (panic, slice) d reader more h f m = absurd h

  parse_loop-Settled :
      (fuel : ℕ) (d : Decoder) (reader : List ReadEvent)
      → length reader < fuel
      → Fits reader
      → Settled (parse_loop parse fuel d reader)
  unfolding parse_loop
  parse_loop-Settled zero d reader lt f = absurd (omega arith)
  parse_loop-Settled (suc fuel) d reader lt f =
      attempt-Settled (parse d.buf) d reader _ (safe d.buf) f (
        resume-Settled d (length reader) (read_chunk d reader) (parse_loop parse fuel)
          (read_chunk-Chunked d reader f)
          (λ d' later lt' f'. parse_loop-Settled fuel d' later (omega arith) f'))

  run_loop-Settled :
      (d : Decoder) (reader : List ReadEvent) → Fits reader → Settled (run_loop parse d reader)
  run_loop-Settled d reader f = parse_loop-Settled (suc (length reader)) d reader (omega arith) f

then_read-Settled :
    {A B : Type 0} (r : Read A) (f : A → Decoder → List ReadEvent → Read B)
    → Settled r
    → ((a : A) (d : Decoder) (later : List ReadEvent) → Fits later → Settled (f a d later))
    → Settled (then_read r f)
then_read-Settled (ok a, d, later) f (_, h) k = k a d later h
then_read-Settled (err e, d, later) f h k = h
then_read-Settled (panic, d, later) f (h, _) k = absurd h

read_payload-Settled :
    (c : XvcCommand) (d : Decoder) (reader : List ReadEvent)
    → Fits reader
    → Settled (read_payload c d reader)
unfolding read_payload
read_payload-Settled XvcCommand.get_info d reader f = (tt, f)
read_payload-Settled XvcCommand.set_tck d reader f =
    then_read-Settled (run_loop SetTck.parse d reader) _
      (run_loop-Settled SetTck.parse set_tck-Safe d reader f) λ _ _ later f'. (tt, f')
read_payload-Settled XvcCommand.shift d reader f =
    then_read-Settled (run_loop (Shift.parse d.max_shift) d reader) _
      (run_loop-Settled (Shift.parse d.max_shift) (shift-Safe d.max_shift) d reader f)
      λ _ _ later f'. (tt, f')

-- On every reader whose reads bring at most 1024 bytes each, empty, failing and interrupted reads
-- included, the blocking `read_message` returns a message or an error: its loops end and nothing
-- panics, and the reads that are left bring at most 1024 bytes each.
pub read_message-Settled :
    (d : Decoder) (reader : List ReadEvent) → Fits reader → Settled (read_message d reader)
unfolding read_message
read_message-Settled d reader f =
    then_read-Settled (run_loop Command.parse _ reader) _
      (run_loop-Settled Command.parse command-Safe _ reader f)
      λ c d' later f'. read_payload-Settled c.0 _ later f'

-- On every reader whose reads bring at most 1024 bytes each, empty, failing and interrupted reads
-- included, the blocking `read_xvc_info` returns an info or an error: its loop ends and nothing
-- panics, and the reads that are left bring at most 1024 bytes each.
pub read_xvc_info-Settled :
    (d : Decoder) (reader : List ReadEvent) → Fits reader → Settled (read_xvc_info d reader)
unfolding read_xvc_info
read_xvc_info-Settled d reader f =
    then_read-Settled (run_loop Info.parse _ reader) _
      (run_loop-Settled Info.parse info-Safe _ reader f) λ _ _ later f'. (tt, f')
