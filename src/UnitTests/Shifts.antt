-- ===== src/UnitTests/Shifts.antt =====
-- The tests of reading shifts in xvc-protocol/src/rw.rs.
use xvc_rs.Prelude.{
  ℕ, ◌*◌, ◌/◌, ◌≡◌, refl, Bool, true, false, ◌&&◌, ◌==◌, [], ◌∷◌, ◌++◌, codes, to_le_bytes,
  replicate, div_ceil, length,
}
use xvc_rs.Protocol.{Message}
use xvc_rs.Errors.{read_error, ReadError, too_many_bytes}
use xvc_rs.Codec.Command
use xvc_rs.Codec.Shift
use xvc_rs.Codec.SliceReader.{get_u32_le, copy_to_boxed_slice}
use xvc_rs.Rw.Write.{write_to}
use xvc_rs.Rw.Decoder.{new, message_from_reader, parse_loop, attempt, resume, read_chunk}
use xvc_rs.UnitTests.Expect.{
  cursor, succeeds, is_unexpected_eof, is_too_many_bytes, all_of, reads, refuses,
  default_max_shift_bytes, round_trip,
}

-- `Err(ReadError::TooManyBytes { max, need: got })`, with both numbers compared
abbrev is_size : ℕ → ℕ → ReadError → Bool
is_size max got (too_many_bytes max' got') = max' == max && got' == got
is_size max got e = false

-- The number of bits, and the sizes of both vectors.
abbrev has_sizes : ℕ → ℕ → Message → Bool
has_sizes n k (Message.shift nb tms tdi) = nb == n && (length tms == k && length tdi == k)
has_sizes n k m = false

abbrev read_shift : Bool
read_shift =
    reads default_max_shift_bytes
      (codes "shift:"
        ++ (to_le_bytes 13
            ++ ((replicate (div_ceil 13 8) 0xAA) ++ (replicate (div_ceil 13 8) 0x55))))
      (Message.shift 13 (replicate (div_ceil 13 8) 0xAA) (replicate (div_ceil 13 8) 0x55))

abbrev too_many_bytes_shift : Bool
too_many_bytes_shift =
    refuses 1024 (codes "shift:" ++ to_le_bytes (1025 * 8)) λ e. is_size 1024 1025 e

abbrev read_shift_zero_bits : Bool
read_shift_zero_bits =
    reads default_max_shift_bytes (codes "shift:" ++ to_le_bytes 0) (Message.shift 0 [] [])

abbrev read_shift_one_bit : Bool
read_shift_one_bit =
    reads default_max_shift_bytes
      (codes "shift:" ++ (to_le_bytes 1 ++ ((0x00 ∷ []) ++ (0x01 ∷ []))))
      (Message.shift 1 (0x00 ∷ []) (0x01 ∷ []))

abbrev read_shift_max_bits : Bool
read_shift_max_bits = refuses 1024 (codes "shift:" ++ to_le_bytes 0xFFFFFFFF) is_too_many_bytes

abbrev read_shift_incomplete_num_bits : Bool
read_shift_incomplete_num_bits =
    refuses default_max_shift_bytes (codes "shift:" ++ 0xAA ∷ 0xBB ∷ []) is_unexpected_eof

abbrev read_shift_incomplete_tms : Bool
read_shift_incomplete_tms =
    refuses default_max_shift_bytes (codes "shift:" ++ (to_le_bytes 16 ++ 0xAA ∷ []))
      is_unexpected_eof

abbrev read_shift_incomplete_tdi : Bool
read_shift_incomplete_tdi =
    refuses default_max_shift_bytes (codes "shift:" ++ (to_le_bytes 8 ++ 0xAA ∷ []))
      is_unexpected_eof

abbrev read_shift_large_vectors : Bool
read_shift_large_vectors =
    reads default_max_shift_bytes
      (codes "shift:"
        ++ (to_le_bytes 1000
            ++ ((replicate (div_ceil 1000 8) 0xAA) ++ (replicate (div_ceil 1000 8) 0x55))))
      (Message.shift 1000 (replicate (div_ceil 1000 8) 0xAA) (replicate (div_ceil 1000 8) 0x55))

abbrev shift_at_exact_max_vector_size_succeeds : Bool
shift_at_exact_max_vector_size_succeeds =
    succeeds
      (message_from_reader 4 (
        cursor
          (codes "shift:" ++ (to_le_bytes (4 * 8) ++ ((replicate 4 0xAA) ++ (replicate 4 0x55))))))
      λ m. true

abbrev shift_over_max_vector_size_fails : Bool
shift_over_max_vector_size_fails =
    refuses 4
      (codes "shift:" ++ (to_le_bytes (5 * 8) ++ ((replicate 5 0xAA) ++ (replicate 5 0x55))))
      is_too_many_bytes

abbrev roundtrip_shift : Bool
roundtrip_shift =
    round_trip (Message.shift 128 (replicate (128 / 8) 0xAA) (replicate (128 / 8) 0x55))

abbrev shift_num_bits_rounding : Bool
shift_num_bits_rounding =
    succeeds
      (message_from_reader default_max_shift_bytes (
        cursor (
          codes "shift:"
          ++ (to_le_bytes 13
              ++ ((replicate (div_ceil 13 8) 0xAA) ++ (replicate (div_ceil 13 8) 0x55))))))
      λ m. has_sizes 13 2 m

abbrev shift_1_bit_requires_1_byte : Bool
shift_1_bit_requires_1_byte =
    succeeds
      (message_from_reader default_max_shift_bytes
        (cursor (codes "shift:" ++ (to_le_bytes 1 ++ ((replicate 1 0x00) ++ (replicate 1 0x01))))))
      λ m. has_sizes 1 1 m

abbrev shift_8_bits_requires_1_byte : Bool
shift_8_bits_requires_1_byte =
    succeeds
      (message_from_reader default_max_shift_bytes
        (cursor (codes "shift:" ++ (to_le_bytes 8 ++ ((replicate 1 0xFF) ++ (replicate 1 0xAA))))))
      λ m. has_sizes 8 1 m

abbrev shift_9_bits_requires_2_bytes : Bool
shift_9_bits_requires_2_bytes =
    succeeds
      (message_from_reader default_max_shift_bytes
        (cursor (codes "shift:" ++ (to_le_bytes 9 ++ ((replicate 2 0xFF) ++ (replicate 2 0xAA))))))
      λ m. has_sizes 9 2 m

shift_tests_pass :
    all_of (
      read_shift ∷ too_many_bytes_shift ∷ read_shift_zero_bits ∷ read_shift_one_bit
      ∷ read_shift_max_bits ∷ read_shift_incomplete_num_bits ∷ read_shift_incomplete_tms
      ∷ read_shift_incomplete_tdi ∷ read_shift_large_vectors
      ∷ shift_at_exact_max_vector_size_succeeds ∷ shift_over_max_vector_size_fails ∷ roundtrip_shift
      ∷ shift_num_bits_rounding ∷ shift_1_bit_requires_1_byte ∷ shift_8_bits_requires_1_byte
      ∷ shift_9_bits_requires_2_bytes ∷ [])
    ≡ true
unfolding message_from_reader new parse_loop attempt resume read_chunk Command.parse Shift.parse
    write_to get_u32_le copy_to_boxed_slice Shift.parse_num_bits Shift.parse_tdi_or_tms read_error
shift_tests_pass = refl
