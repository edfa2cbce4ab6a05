-- ===== src/Errors.antt =====
-- xvc-protocol/src/error.rs, and `ParseErr` of xvc-protocol/src/codec.rs with its conversions.
-- A `String` is its UTF-8 bytes. The standard library's `Display` texts are written out.
use xvc_rs.Prelude.{ℕ, none, some, ◌++◌, Bytes, codes}
use xvc_rs.Text.{
  Utf8Error, ParseIntError, empty, invalid_digit, pos_overflow, decimal, from_utf8_lossy,
}

pub data ParseVersionError : Type 0 where
  missing_dot : ParseVersionError
  parse_int : ParseIntError → ParseVersionError

pub data ParseErr : Type 0 where
  incomplete : ParseErr
  invalid_command : Bytes → ParseErr
  -- `max`, `got`
  too_many_bytes : ℕ → ℕ → ParseErr
  utf8_error : Utf8Error → ParseErr
  parse_int_error : ParseIntError → ParseErr
  parse_version_error : ParseVersionError → ParseErr

-- `io::ErrorKind`, as far as the code makes or tests one; `other` has the errors of the system.
pub data ErrorKind : Type 0 where
  interrupted unexpected_eof timed_out write_zero : ErrorKind
  other : ℕ → ErrorKind

pub record IoError : Type 0 where
  pub kind : ErrorKind
  pub message : Bytes

pub data ReadError : Type 0 where
  io_error : IoError → ReadError
  invalid_command : Bytes → ReadError
  invalid_format : Bytes → ReadError
  -- `max`, `need`
  too_many_bytes : ℕ → ℕ → ReadError

unfoldable pub show_int_error : ParseIntError → Bytes
show_int_error empty = codes "cannot parse integer from empty string"
show_int_error invalid_digit = codes "invalid digit found in string"
show_int_error pos_overflow = codes "number too large to fit in target type"

unfoldable pub show_utf8_error : Utf8Error → Bytes
show_utf8_error e = elim (e.error_len) [
  | none ↦ codes "incomplete utf-8 byte sequence from index " ++ decimal e.valid_up_to
  | some len ↦
      codes "invalid utf-8 sequence of "
      ++ (decimal len ++ (codes " bytes from index " ++ decimal e.valid_up_to))
]

unfoldable pub show_version_error : ParseVersionError → Bytes
unfolding show_int_error
show_version_error missing_dot = codes "Missing dot in version"
show_version_error (parse_int e) = show_int_error e

abbrev pub incomplete_message : IoError
incomplete_message = record { kind = unexpected_eof; message = codes "incomplete message" }

-- `impl From<ParseErr> for ReadError`
unfoldable pub read_error : ParseErr → ReadError
read_error incomplete = io_error incomplete_message
read_error (ParseErr.invalid_command items) = ReadError.invalid_command (from_utf8_lossy items)
read_error (ParseErr.too_many_bytes max got) = ReadError.too_many_bytes max got
read_error (utf8_error e) = invalid_format (codes "Invalid utf8: " ++ show_utf8_error e)
read_error (parse_int_error e) = invalid_format (codes "Invalid integer: " ++ show_int_error e)
read_error (parse_version_error e) =
    invalid_format (codes "Could not parse version: " ++ show_version_error e)

-- `impl Display for ReadError`
unfoldable pub show_read_error : ReadError → Bytes
show_read_error (io_error e) = e.message
show_read_error (ReadError.invalid_command cmd) = codes "Received invalid command " ++ cmd
show_read_error (invalid_format format) = format
show_read_error (ReadError.too_many_bytes max got) =
    codes "Message too large! Maximum is " ++ (decimal max ++ (codes ", but got " ++ decimal got))
