-- ===== src/UnitTests/Writer.antt =====
-- The tests of the writers and of server infos in xvc-protocol/src/rw.rs.
use xvc_rs.Prelude.{
  ◌≡◌, refl, Bool, true, ◌==◌, [], ◌∷◌, ◌++◌, codes, to_le_bytes, replicate, div_ceil,
}
use xvc_rs.Protocol.{default_info, Message}
use xvc_rs.Text.{
  from_utf8, decimal, decimal_onto, position, strip_prefix, split_once, parse_uint, scan_uint,
}
use xvc_rs.Codec.Info
use xvc_rs.Codec.Info.{parse_line, cut_line}
use xvc_rs.Codec.VersionText.{from_str}
use xvc_rs.Rw.Write.{write_to, write_info, info_line, show_version}
use xvc_rs.Rw.Decoder.{new, info_from_reader, parse_loop, attempt, resume, read_chunk}
use xvc_rs.UnitTests.Expect.{
  cursor, succeeds, all_of, reads_info, writes, writes_info, round_trip_info,
}

abbrev write_server_info : Bool
write_server_info = writes_info default_info (codes "xvcServer_v1.0:10485760\n")

abbrev write_getinfo : Bool
write_getinfo = writes Message.get_info (codes "getinfo:")

abbrev write_settck : Bool
write_settck = writes (Message.set_tck 0x12345678) (codes "settck:" ++ to_le_bytes 0x12345678)

abbrev write_shift : Bool
write_shift =
    writes (Message.shift 13 (replicate (div_ceil 13 8) 0xAA) (replicate (div_ceil 13 8) 0x55)) (
      codes "shift:"
      ++ (to_le_bytes 13 ++ ((replicate (div_ceil 13 8) 0xAA) ++ (replicate (div_ceil 13 8) 0x55))))

abbrev write_shift_zero_bits : Bool
write_shift_zero_bits = writes (Message.shift 0 [] []) (codes "shift:" ++ to_le_bytes 0)

abbrev write_shift_max_bits : Bool
write_shift_max_bits =
    writes (Message.shift 0xFFFFFFFF (replicate 512 0xFF) (replicate 512 0xAA))
      (codes "shift:" ++ (to_le_bytes 0xFFFFFFFF ++ ((replicate 512 0xFF) ++ (replicate 512 0xAA))))

abbrev write_xvc_info_max_values : Bool
write_xvc_info_max_values =
    writes_info
      (record { version = record { major = 255; minor = 255 }; max_vector_len = 0xFFFFFFFF })
      (codes "xvcServer_v255.255:4294967295\n")

abbrev read_server_info : Bool
read_server_info =
    reads_info (codes "xvcServer_v1.0:32\n")
      (record { version = record { major = 1; minor = 0 }; max_vector_len = 32 })

abbrev read_xvc_info_with_max_u32_vector_len : Bool
read_xvc_info_with_max_u32_vector_len =
    reads_info (codes "xvcServer_v1.0:4294967295\n")
      (record { version = record { major = 1; minor = 0 }; max_vector_len = 0xFFFFFFFF })

abbrev read_xvc_info_with_zero_vector_len : Bool
read_xvc_info_with_zero_vector_len =
    reads_info (codes "xvcServer_v1.0:0\n")
      (record { version = record { major = 1; minor = 0 }; max_vector_len = 0 })

abbrev read_xvc_info_with_large_version_numbers : Bool
read_xvc_info_with_large_version_numbers =
    reads_info (codes "xvcServer_v999.999:1024\n")
      (record { version = record { major = 999; minor = 999 }; max_vector_len = 1024 })

abbrev read_xvc_info_incomplete_then_complete : Bool
read_xvc_info_incomplete_then_complete =
    succeeds (info_from_reader (cursor (codes "xvcServer_v1.0:4\n"))) λ i. i.max_vector_len == 4

abbrev roundtrip_xvc_info : Bool
roundtrip_xvc_info =
    round_trip_info (record { version = record { major = 1; minor = 0 }; max_vector_len = 8192 })

writer_tests_pass :
    all_of (
      write_server_info ∷ write_getinfo ∷ write_settck ∷ write_shift ∷ write_shift_zero_bits
      ∷ write_shift_max_bits ∷ write_xvc_info_max_values ∷ read_server_info
      ∷ read_xvc_info_with_max_u32_vector_len ∷ read_xvc_info_with_zero_vector_len
      ∷ read_xvc_info_with_large_version_numbers ∷ read_xvc_info_incomplete_then_complete
      ∷ roundtrip_xvc_info ∷ [])
    ≡ true
unfolding write_to write_info info_line show_version decimal decimal_onto info_from_reader new
    parse_loop attempt resume read_chunk Info.parse parse_line cut_line position strip_prefix
    split_once from_utf8 from_str parse_uint scan_uint
writer_tests_pass = refl
