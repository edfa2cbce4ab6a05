-- ===== src/UnitTests/Adapter.antt =====
-- The tests of xvc-server-usb/src/ftdi_device.rs.
use xvc_rs.Prelude.{
  ℕ, suc, ◌*◌, ◌≡◌, refl, Bool, true, false, ◌&&◌, ◌==◌, List, [], ◌∷◌, ◌++◌, leb, Bytes, ok,
  length, replicate, div_ceil,
}
use xvc_rs.Errors.{IoError}
use xvc_rs.Client.{closed}
use xvc_rs.Ftdi.Usb.{UsbHandle, pipes, write, read, read_loop, strip}
use xvc_rs.Ftdi.Bits.{is_set}
use xvc_rs.Ftdi.Bits.Vector.{step, pin, or_at, clear_at}
use xvc_rs.Ftdi.Shift.Chunks.{shift_chunks, shift_loop}
use xvc_rs.Examples.Mpsse.{mpsse, as_slice, command}
use xvc_rs.UnitTests.Expect.{same, succeeds, all_of}

-- It takes and records all it is given, and reads zeros.
abbrev recorder : UsbHandle (List Bytes) IoError
recorder = record {
  write = λ endpoint values timeout h. (ok (length values), h ++ values ∷ []);
  read = λ endpoint n timeout h. (ok (replicate n 0), h);
  timed_out = closed;
}

-- `shift_chunks` on a new recorder with a zeroed `tdo`, and a test of what was sent.
abbrev sends : (out_size in_size num_bits : ℕ) (tdi tms : Bytes) → (List Bytes → Bool) → Bool
sends out_size in_size num_bits tdi tms test =
    let (result, tdo, sent) =
      shift_chunks (pipes recorder 0x02 0x81 1000) mpsse out_size in_size tms tdi num_bits
        (replicate (div_ceil num_bits 8) 0) [] in
    succeeds result λ done. test sent

abbrev first_is : Bytes → List Bytes → Bool
first_is expected [] = false
first_is expected (chunk ∷ sent) = same chunk expected

abbrev one_tms_bit : Bool
one_tms_bit =
    sends 512 512 1 (0x01 ∷ []) (0x00 ∷ [])
      λ sent. length sent == 1 && first_is (0x6B ∷ 0x00 ∷ 0x80 ∷ 0x87 ∷ []) sent

abbrev three_tms_bits : Bool
three_tms_bits = sends 512 512 3 (0x00 ∷ []) (0x05 ∷ []) (first_is (0x6B ∷ 0x02 ∷ 0x0D ∷ 0x87 ∷ []))

abbrev tms_then_tdi_bits : Bool
tms_then_tdi_bits =
    sends 512 512 4 (0x0A ∷ []) (0x00 ∷ [])
      (first_is (0x6B ∷ 0x00 ∷ 0x00 ∷ 0x3B ∷ 0x02 ∷ 0x05 ∷ 0x87 ∷ []))

abbrev tms_then_tdi_byte : Bool
tms_then_tdi_byte =
    sends 512 512 9 (0xFE ∷ 0x01 ∷ []) (0x00 ∷ 0x00 ∷ [])
      (first_is (0x6B ∷ 0x00 ∷ 0x00 ∷ 0x39 ∷ 0x00 ∷ 0x00 ∷ 0xFF ∷ 0x87 ∷ []))

abbrev single_chunk_over_255_bits_does_not_overflow : Bool
single_chunk_over_255_bits_does_not_overflow =
    sends 512 512 300 (replicate 38 0xA5) (replicate 38 0x00) λ sent. true

-- Each chunk begins with a `clock_tms`, and the buffer is reset between them.
abbrev all_chunks : ℕ → List Bytes → Bool
all_chunks out_size [] = true
all_chunks out_size ([] ∷ sent) = false
all_chunks out_size ((first ∷ chunk) ∷ sent) =
    first == 0x6B && (leb (suc (length chunk)) (2 * out_size) && all_chunks out_size sent)

abbrev large_shift_splits_into_independent_chunks : Bool
large_shift_splits_into_independent_chunks =
    sends 16 64 256 (replicate 32 0xA5) (replicate 32 0x00)
      λ sent. leb 2 (length sent) && all_chunks 16 sent

adapter_tests_pass :
    all_of (one_tms_bit ∷ three_tms_bits ∷ tms_then_tdi_bits ∷ tms_then_tdi_byte ∷ []) ≡ true
unfolding as_slice command shift_chunks shift_loop is_set step pin or_at clear_at write read
    read_loop strip
adapter_tests_pass = refl

large_shifts_pass :
    all_of (
      single_chunk_over_255_bits_does_not_overflow ∷ large_shift_splits_into_independent_chunks
      ∷ [])
    ≡ true
unfolding as_slice command shift_chunks shift_loop is_set step pin or_at clear_at write read
    read_loop strip
large_shifts_pass = refl
