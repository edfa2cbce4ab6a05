-- ===== src/UnitTests/Decoders.antt =====
-- The tests of the decoders in xvc-protocol/src/tokio_codec.rs.
use xvc_rs.Prelude.{
  ℕ, ◌≡◌, refl, Bool, true, false, ◌&&◌, [], ◌∷◌, ◌++◌, Bytes, codes, to_le_bytes, some, none,
  Option,
}
use xvc_rs.Protocol.{Message, XvcInfo}
use xvc_rs.Errors.{read_error}
use xvc_rs.Text.{from_utf8, position, strip_prefix, split_once, parse_uint, scan_uint}
use xvc_rs.Codec.Command
use xvc_rs.Codec.SetTck
use xvc_rs.Codec.Shift
use xvc_rs.Codec.Shift.{Shift, parse_num_bits, parse_tdi_or_tms}
use xvc_rs.Codec.Info
use xvc_rs.Codec.Info.{parse_line, cut_line}
use xvc_rs.Codec.VersionText.{from_str}
use xvc_rs.Codec.SliceReader.{get_u32_le, copy_to_boxed_slice}
use xvc_rs.TokioCodec.Buffer.{list_buffer}
use xvc_rs.TokioCodec.MessageDecoder
use xvc_rs.TokioCodec.XvcInfoDecoder
use xvc_rs.UnitTests.Expect.{
  same, same_info, same_message, succeeds, fails, is_too_many_bytes, all_of, is_empty, is_none,
}

-- `Some(…)` with this content
abbrev is_message : Option Message → Message → Bool
is_message none m = false
is_message (some found) m = same_message found m

abbrev is_info : Option XvcInfo → XvcInfo → Bool
is_info none i = false
is_info (some found) i = same_info found i

-- `decode` returns this message and leaves the buffer empty.
abbrev decodes_all : ℕ → Bytes → Message → Bool
decodes_all max_shift bytes m =
    let (result, buf) = MessageDecoder.decode list_buffer max_shift bytes in
    succeeds result (λ found. is_message found m) && is_empty buf

abbrev waits : Bytes → Bool
waits bytes = succeeds (MessageDecoder.decode list_buffer 1024 bytes).0 is_none

abbrev decode_getinfo : Bool
decode_getinfo = decodes_all 1024 (codes "getinfo:") (Message.get_info)

abbrev decode_settck : Bool
decode_settck =
    decodes_all 1024 (codes "settck:" ++ to_le_bytes 0x12345678) (Message.set_tck 0x12345678)

abbrev decode_shift : Bool
decode_shift =
    decodes_all 1024 (codes "shift:" ++ (to_le_bytes 16 ++ (0xAA ∷ 0xBB ∷ 0x11 ∷ 0x22 ∷ [])))
      (Message.shift 16 (0xAA ∷ 0xBB ∷ []) (0x11 ∷ 0x22 ∷ []))

abbrev decode_incomplete_returns_none : Bool
decode_incomplete_returns_none = waits (codes "geti") && waits (codes "settck:")

abbrev decode_leaves_trailing_bytes : Bool
decode_leaves_trailing_bytes =
    let (result, buf) = MessageDecoder.decode list_buffer 1024 (codes "getinfo:getinfo:") in
    succeeds result (λ found. is_message found Message.get_info) && same buf (codes "getinfo:")

abbrev decode_too_many_bytes : Bool
decode_too_many_bytes =
    fails (MessageDecoder.decode list_buffer 2 (codes "shift:" ++ to_le_bytes 32)).0
      is_too_many_bytes

abbrev decode_xvc_info : Bool
decode_xvc_info =
    let (result, buf) = XvcInfoDecoder.decode list_buffer (codes "xvcServer_v1.0:1024\n") in
    succeeds result (λ found.
      is_info found (record { version = record { major = 1; minor = 0 }; max_vector_len = 1024 }))
    && is_empty buf

abbrev decode_xvc_info_incomplete : Bool
decode_xvc_info_incomplete =
    succeeds (XvcInfoDecoder.decode list_buffer (codes "xvcServer_v1.0:1024")).0 is_none

abbrev decode_xvc_info_leaves_trailing_bytes : Bool
decode_xvc_info_leaves_trailing_bytes =
    let (result, buf) = XvcInfoDecoder.decode list_buffer (codes "xvcServer_v1.0:32\nextra") in
    succeeds result (λ found.
      is_info found (record { version = record { major = 1; minor = 0 }; max_vector_len = 32 }))
    && same buf (codes "extra")

decoder_tests_pass :
    all_of (
      decode_getinfo ∷ decode_settck ∷ decode_shift ∷ decode_incomplete_returns_none
      ∷ decode_leaves_trailing_bytes ∷ decode_too_many_bytes ∷ decode_xvc_info
      ∷ decode_xvc_info_incomplete ∷ decode_xvc_info_leaves_trailing_bytes ∷ [])
    ≡ true
unfolding MessageDecoder.decode XvcInfoDecoder.decode Info.parse parse_line cut_line position
    strip_prefix split_once from_utf8 from_str parse_uint scan_uint Command.parse SetTck.parse
    Shift.parse parse_num_bits parse_tdi_or_tms get_u32_le copy_to_boxed_slice read_error
decoder_tests_pass = refl
