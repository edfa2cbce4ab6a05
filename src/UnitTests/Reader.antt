-- ===== src/UnitTests/Reader.antt =====
-- The tests of reading get_info and set_tck in xvc-protocol/src/rw.rs.
use xvc_rs.Prelude.{◌≡◌, refl, Bool, true, false, ◌&&◌, [], ◌∷◌, ◌++◌, Bytes, codes, to_le_bytes}
use xvc_rs.Protocol.{Message}
use xvc_rs.Errors.{read_error, ReadError, invalid_command}
use xvc_rs.Text.{from_utf8_lossy}
use xvc_rs.Codec.Command
use xvc_rs.Codec.SetTck
use xvc_rs.Codec.SliceReader.{get_u32_le}
use xvc_rs.Rw.Write.{write_to}
use xvc_rs.Rw.Decoder.{
  new, read_message, message_from_reader, parse_loop, attempt, resume, read_chunk,
}
use xvc_rs.UnitTests.Expect.{
  same, same_message, cursor, succeeds, is_io_error, is_unexpected_eof, is_invalid_command, all_of,
  reads, refuses, default_max_shift_bytes, round_trip,
}

-- `Err(ReadError::InvalidCommand(p)) => assert_eq!(p, …)`
abbrev is_command : Bytes → ReadError → Bool
is_command expected (invalid_command p) = same p expected
is_command expected e = false

abbrev read_getinfo : Bool
read_getinfo = reads default_max_shift_bytes (codes "getinfo:") Message.get_info

abbrev read_settck : Bool
read_settck =
    reads default_max_shift_bytes (codes "settck:" ++ to_le_bytes 0x12345678)
      (Message.set_tck 0x12345678)

abbrev invalid_prefix : Bool
invalid_prefix = refuses default_max_shift_bytes (codes "xx") λ e. is_command (codes "xx") e

abbrev read_getinfo_with_extra_data : Bool
read_getinfo_with_extra_data =
    reads default_max_shift_bytes (codes "getinfo:getinfo:") Message.get_info

abbrev read_getinfo_exact : Bool
read_getinfo_exact = reads default_max_shift_bytes (codes "getinfo:") Message.get_info

abbrev read_settck_zero_period : Bool
read_settck_zero_period =
    reads default_max_shift_bytes (codes "settck:" ++ to_le_bytes 0) (Message.set_tck 0)

abbrev read_settck_max_period : Bool
read_settck_max_period =
    reads default_max_shift_bytes (codes "settck:" ++ to_le_bytes 0xFFFFFFFF)
      (Message.set_tck 0xFFFFFFFF)

abbrev read_settck_incomplete : Bool
read_settck_incomplete = refuses default_max_shift_bytes (codes "settck:") is_io_error

abbrev read_settck_partial_period : Bool
read_settck_partial_period =
    refuses default_max_shift_bytes (codes "settck:" ++ 0xAA ∷ 0xBB ∷ []) is_unexpected_eof

abbrev invalid_command_name : Bool
invalid_command_name = refuses default_max_shift_bytes (codes "invalid:") is_invalid_command

abbrev empty_input : Bool
empty_input = refuses default_max_shift_bytes [] is_io_error

abbrev only_delimiter : Bool
only_delimiter = refuses default_max_shift_bytes (codes ":") is_invalid_command

abbrev binary_garbage_input : Bool
binary_garbage_input =
    refuses default_max_shift_bytes (0xFF ∷ 0xFE ∷ 0xFD ∷ 0xFC ∷ []) is_invalid_command

abbrev roundtrip_getinfo : Bool
roundtrip_getinfo = round_trip Message.get_info

abbrev roundtrip_settck : Bool
roundtrip_settck = round_trip (Message.set_tck 0x12345678)

-- Both messages are read by one decoder, each from a reader of its own.
abbrev decoder_reusable_reads_two_messages : Bool
decoder_reusable_reads_two_messages =
    let (first, dec, _) = read_message (new 1024) (cursor (codes "getinfo:")) in
    let (second, _, _) = read_message dec (cursor (codes "settck:" ++ 0x42 ∷ 0 ∷ 0 ∷ 0 ∷ [])) in
    succeeds first (λ m. same_message m Message.get_info)
    && succeeds second (λ m. same_message m (Message.set_tck 0x42))

reader_tests_pass :
    all_of (
      read_getinfo ∷ read_settck ∷ invalid_prefix ∷ read_getinfo_with_extra_data
      ∷ read_getinfo_exact ∷ read_settck_zero_period ∷ read_settck_max_period
      ∷ read_settck_incomplete ∷ read_settck_partial_period ∷ invalid_command_name ∷ empty_input
      ∷ only_delimiter ∷ binary_garbage_input ∷ roundtrip_getinfo ∷ roundtrip_settck
      ∷ decoder_reusable_reads_two_messages ∷ [])
    ≡ true
unfolding message_from_reader read_message new parse_loop attempt resume read_chunk Command.parse
    SetTck.parse from_utf8_lossy write_to get_u32_le read_error
reader_tests_pass = refl
