-- ===== src/UnitTests/Parsers.antt =====
-- The tests of the parsers in xvc-protocol/src/codec.rs, and of versions in protocol.rs.
use xvc_rs.Prelude.{
  ◌≡◌, refl, Bool, true, false, ◌&&◌, ◌==◌, [], ◌∷◌, ◌++◌, codes, to_le_bytes, replicate,
}
use xvc_rs.Protocol.{version_lt, XvcCommand}
use xvc_rs.Errors.{
  ParseErr, incomplete, parse_version_error, parse_int_error, ParseVersionError, missing_dot,
  parse_int,
}
use xvc_rs.Text.{from_utf8, position, strip_prefix, split_once, parse_uint, scan_uint}
use xvc_rs.Codec.Command
use xvc_rs.Codec.SetTck
use xvc_rs.Codec.Shift
use xvc_rs.Codec.Shift.{Shift, parse_num_bits, parse_tdi_or_tms}
use xvc_rs.Codec.Info
use xvc_rs.Codec.Info.{parse_line, cut_line}
use xvc_rs.Codec.VersionText.{from_str}
use xvc_rs.Codec.SliceReader.{get_u32_le, copy_to_boxed_slice}
use xvc_rs.UnitTests.Expect.{same, same_version, same_info, succeeds, fails, all_of, is_empty}

-- The kinds of errors that the tests match.
abbrev is_incomplete : ParseErr → Bool
is_incomplete incomplete = true
is_incomplete e = false

abbrev is_invalid : ParseErr → Bool
is_invalid (ParseErr.invalid_command cmd) = true
is_invalid e = false

abbrev is_version_error : ParseErr → Bool
is_version_error (parse_version_error e) = true
is_version_error e = false

abbrev is_int_error : ParseErr → Bool
is_int_error (parse_int_error e) = true
is_int_error e = false

abbrev is_oversized : ParseErr → Bool
is_oversized (ParseErr.too_many_bytes max got) = true
is_oversized e = false

abbrev is_set_tck : XvcCommand → Bool
is_set_tck XvcCommand.set_tck = true
is_set_tck c = false

abbrev is_missing_dot : ParseVersionError → Bool
is_missing_dot missing_dot = true
is_missing_dot e = false

abbrev is_parse_int : ParseVersionError → Bool
is_parse_int (parse_int e) = true
is_parse_int e = false

abbrev parses_valid_xvc_info : Bool
parses_valid_xvc_info =
    succeeds (Info.parse (codes "xvcServer_v1.0:4\n")).0
      (λ i. same_info i (record { version = record { major = 1; minor = 0 }; max_vector_len = 4 }))
    && succeeds (Info.parse (codes "xvcServer_v10.2:24\n")).0 (λ i.
      same_info i (record { version = record { major = 10; minor = 2 }; max_vector_len = 24 }))

abbrev xvc_info_incomplete_no_newline : Bool
xvc_info_incomplete_no_newline = fails (Info.parse (codes "xvcServer_v1.0:4")).0 is_incomplete

abbrev xvc_info_invalid_prefix : Bool
xvc_info_invalid_prefix = fails (Info.parse (codes "badprefix:1.0:4\n")).0 is_invalid

abbrev xvc_info_missing_colon : Bool
xvc_info_missing_colon = fails (Info.parse (codes "xvcServer_v1.0\n")).0 is_invalid

abbrev xvc_info_malformed_version : Bool
xvc_info_malformed_version = fails (Info.parse (codes "xvcServer_v1.a:4\n")).0 is_version_error

abbrev xvc_info_invalid_max_vector_len : Bool
xvc_info_invalid_max_vector_len = fails (Info.parse (codes "xvcServer_v1.0:NaN\n")).0 is_int_error

abbrev xvc_command_parse_valid_and_rest : Bool
xvc_command_parse_valid_and_rest =
    let (cmd, buf) = Command.parse (codes "settck:" ++ 0x64 ∷ []) in
    succeeds cmd is_set_tck && same buf (0x64 ∷ [])

abbrev xvc_command_parse_incomplete : Bool
xvc_command_parse_incomplete = fails (Command.parse (codes "getin")).0 is_incomplete

abbrev xvc_command_parse_invalid : Bool
xvc_command_parse_invalid = fails (Command.parse (codes "unknown:")).0 is_invalid

abbrev set_tck_parse_ok_and_incomplete : Bool
set_tck_parse_ok_and_incomplete =
    let (set, buf) = SetTck.parse (1 ∷ 0 ∷ 0 ∷ 0 ∷ []) in
    succeeds set (λ period. period == 1)
    && (is_empty buf && fails (SetTck.parse (0 ∷ 0 ∷ 0 ∷ [])).0 is_incomplete)

abbrev shift_parse_num_bits_behaviour : Bool
shift_parse_num_bits_behaviour =
    let (num_bits, v) = parse_num_bits (0x0C ∷ 0 ∷ 0 ∷ 0 ∷ []) in
    fails (parse_num_bits (0 ∷ 0 ∷ 0 ∷ [])).0 is_incomplete
    && (succeeds num_bits (λ n. n == 12) && is_empty v)

abbrev parse_tdi_or_tms_edge_cases : Bool
parse_tdi_or_tms_edge_cases =
    let (slice, buf) = parse_tdi_or_tms 4 4 (replicate 4 0xAA) in
    fails (parse_tdi_or_tms 5 4 (replicate 4 0)).0 is_oversized
    && (fails (parse_tdi_or_tms 2 4 (0 ∷ [])).0 is_incomplete
        && (succeeds slice (λ s. same s (replicate 4 0xAA)) && is_empty buf))

abbrev shift_parse_ok : Bool
shift_parse_ok =
    let (result, slice) = Shift.parse 4 (to_le_bytes 12 ++ (0xAA ∷ 0xBB ∷ 0x11 ∷ 0x22 ∷ [])) in
    succeeds result (λ shift.
      shift.num_bits == 12
      && (same shift.tms (0xAA ∷ 0xBB ∷ []) && same shift.tdi (0x11 ∷ 0x22 ∷ [])))
    && is_empty slice

abbrev shift_parse_too_many_bytes_error : Bool
shift_parse_too_many_bytes_error =
    fails (Shift.parse 1 (to_le_bytes 16 ++ (0 ∷ 0 ∷ 0 ∷ 0 ∷ []))).0 is_oversized

abbrev version_ordering : Bool
version_ordering =
    version_lt (record { major = 1; minor = 0 }) (record { major = 1; minor = 1 })
    && version_lt (record { major = 1; minor = 0 }) (record { major = 2; minor = 0 })

abbrev correct_version_from_str : Bool
correct_version_from_str =
    succeeds (from_str (codes "1.0")) (λ v. same_version v (record { major = 1; minor = 0 }))
    && (succeeds (from_str (codes "2.0")) (λ v. same_version v (record { major = 2; minor = 0 }))
        && succeeds (from_str (codes "2.20"))
            (λ v. same_version v (record { major = 2; minor = 20 })))

abbrev incorrect_version_from_str : Bool
incorrect_version_from_str =
    fails (from_str (codes "1")) is_missing_dot && fails (from_str (codes "1.1.1")) is_parse_int

parser_tests_pass :
    all_of (
      parses_valid_xvc_info ∷ xvc_info_incomplete_no_newline ∷ xvc_info_invalid_prefix
      ∷ xvc_info_missing_colon ∷ xvc_info_malformed_version ∷ xvc_info_invalid_max_vector_len
      ∷ xvc_command_parse_valid_and_rest ∷ xvc_command_parse_incomplete ∷ xvc_command_parse_invalid
      ∷ set_tck_parse_ok_and_incomplete ∷ shift_parse_num_bits_behaviour
      ∷ parse_tdi_or_tms_edge_cases ∷ shift_parse_ok ∷ shift_parse_too_many_bytes_error
      ∷ version_ordering ∷ correct_version_from_str ∷ incorrect_version_from_str ∷ [])
    ≡ true
unfolding Info.parse parse_line cut_line position strip_prefix split_once from_utf8 from_str
    parse_uint scan_uint Command.parse SetTck.parse Shift.parse parse_num_bits parse_tdi_or_tms
    get_u32_le copy_to_boxed_slice
parser_tests_pass = refl
