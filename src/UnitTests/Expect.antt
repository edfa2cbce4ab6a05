-- ===== src/UnitTests/Expect.antt =====
-- What the unit tests of xvc-protocol/src expect, as Boolean tests.
use xvc_rs.Prelude.{
  ℕ, Bool, true, false, ◌&&◌, ◌==◌, Option, some, none, List, [], ◌∷◌, Bytes, Outcome, ok, err,
  panic, length, starts_with,
}
use xvc_rs.Errors.{ErrorKind, unexpected_eof, ReadError, io_error, invalid_command, too_many_bytes}
use xvc_rs.Protocol.{Version, Message, XvcInfo}
use xvc_rs.Rw.Write.{vec_writer, write_to, write_info}
use xvc_rs.Rw.Decoder.{ReadEvent, received, message_from_reader, info_from_reader}

-- `assert_eq!` of byte vectors
abbrev pub same : Bytes → Bytes → Bool
same a b = starts_with a b && length a == length b

abbrev pub is_empty : Bytes → Bool
is_empty bytes = length bytes == 0

abbrev pub is_none {ℓ} : {A : Type ℓ} → Option A → Bool
is_none none = true
is_none (some a) = false

abbrev pub same_version : Version → Version → Bool
same_version v w = v.major == w.major && v.minor == w.minor

abbrev pub same_info : XvcInfo → XvcInfo → Bool
same_info i j = same_version i.version j.version && i.max_vector_len == j.max_vector_len

abbrev pub same_message : Message → Message → Bool
same_message Message.get_info Message.get_info = true
same_message (Message.set_tck p) (Message.set_tck q) = p == q
same_message (Message.shift n tms tdi) (Message.shift m tms' tdi') =
    n == m && (same tms tms' && same tdi tdi')
same_message _ _ = false

-- `Cursor::new(data)` as a reader; no test has more than the 1024 bytes that one read brings.
abbrev pub cursor : Bytes → List ReadEvent
cursor [] = []
cursor (c ∷ data_bytes) = received (c ∷ data_bytes) ∷ []

-- `unwrap`, and a test of the value
abbrev pub succeeds {ℓ κ} : {E : Type ℓ} {A : Type κ} → Outcome E A → (A → Bool) → Bool
succeeds (ok a) test = test a
succeeds (err e) test = false
succeeds panic test = false

-- `match … { Err(e) if … => {}, other => panic!(…) }`
abbrev pub fails {ℓ κ} : {E : Type ℓ} {A : Type κ} → Outcome E A → (E → Bool) → Bool
fails (ok a) test = false
fails (err e) test = test e
fails panic test = false

abbrev pub is_io_error : ReadError → Bool
is_io_error (io_error e) = true
is_io_error e = false

abbrev pub is_eof_kind : ErrorKind → Bool
is_eof_kind unexpected_eof = true
is_eof_kind kind = false

abbrev pub is_unexpected_eof : ReadError → Bool
is_unexpected_eof (io_error e) = is_eof_kind e.kind
is_unexpected_eof e = false

abbrev pub is_invalid_command : ReadError → Bool
is_invalid_command (invalid_command cmd) = true
is_invalid_command e = false

abbrev pub is_too_many_bytes : ReadError → Bool
is_too_many_bytes (too_many_bytes max need) = true
is_too_many_bytes e = false

abbrev pub all_of : List Bool → Bool
all_of [] = true
all_of (test ∷ tests) = test && all_of tests

module _ (max_shift_bytes : ℕ) (bytes : Bytes) where
  -- `OwnedMessage::from_reader(&mut cursor, …)`
  abbrev pub reads : Message → Bool
  reads m = succeeds (message_from_reader max_shift_bytes (cursor bytes)) (λ m'. same_message m' m)

  abbrev pub refuses : (ReadError → Bool) → Bool
  refuses test = fails (message_from_reader max_shift_bytes (cursor bytes)) test

-- `XvcInfo::from_reader(&mut cursor)`
abbrev pub reads_info : Bytes → XvcInfo → Bool
reads_info bytes i = succeeds (info_from_reader (cursor bytes)) (λ j. same_info j i)

-- `write_to(&mut out)` into a new vector
abbrev pub writes : Message → Bytes → Bool
writes m expected = succeeds (write_to vec_writer m []) (λ out. same out expected)

abbrev pub writes_info : XvcInfo → Bytes → Bool
writes_info i expected = succeeds (write_info vec_writer i []) (λ out. same out expected)

-- The tests' limit on the vectors.
abbrev pub default_max_shift_bytes : ℕ
default_max_shift_bytes = 1024

-- What is written is read back.
abbrev pub round_trip : Message → Bool
round_trip m = succeeds (write_to vec_writer m []) (λ out. reads default_max_shift_bytes out m)

abbrev pub round_trip_info : XvcInfo → Bool
round_trip_info i = succeeds (write_info vec_writer i []) (λ out. reads_info out i)
