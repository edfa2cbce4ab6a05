-- ===== src/Codec/Info.antt =====
-- `XvcInfo::parse` of xvc-protocol/src/codec.rs.
pub mod RoundTrip
pub mod Spelled
use xvc_rs.Prelude.{
  ℕ, ◌+◌, ◌^◌, ◌<◌, ◌≡◌, refl, ◌++◌, [], ◌∷◌, Option, none, some, arith, Bytes, codes, All, Outcome,
  ok, err, panic, ◌>>=◌, ok_or, map_err, slice_from, slice_to,
}
use xvc_rs.Text.{position, strip_prefix, from_utf8, parse_uint, max_u32}
use xvc_rs.Errors.{ParseErr, incomplete, utf8_error, parse_int_error, parse_version_error}
use xvc_rs.Protocol.{XvcInfo}
use xvc_rs.Codec.Parser.{Parser, ParseResult}
use xvc_rs.Codec.VersionText.{from_str}

abbrev pub xvc_server_prefix : Bytes
xvc_server_prefix = codes "xvcServer_v"

abbrev pub newline : ℕ
newline = b'\n'

-- The fields of a line, without its newline.
unfoldable pub parse_line : Bytes → ParseResult XvcInfo
parse_line line = do
  rest ← ok_or (strip_prefix line xvc_server_prefix) (ParseErr.invalid_command line)
  colon_index ← ok_or (position b':' rest) (ParseErr.invalid_command line)
  before ← slice_to colon_index rest
  version_text ← map_err utf8_error (from_utf8 before)
  version ← map_err parse_version_error (from_str version_text)
  after ← slice_from (colon_index + 1) rest
  length_text ← map_err utf8_error (from_utf8 after)
  max_vector_len ← map_err parse_int_error (parse_uint max_u32 length_text)
  ok (record { version = version; max_vector_len = max_vector_len })

-- The line up to the newline and the buffer behind it.
unfoldable pub cut_line : ℕ → Bytes → ParseResult (Bytes × Bytes)
cut_line newline_index buf = do
  line ← slice_to newline_index buf
  rest ← slice_from (newline_index + 1) buf
  ok (line, rest)

unfoldable pub finish_line : Bytes → ParseResult (Bytes × Bytes) → ParseResult XvcInfo × Bytes
finish_line buf (ok (line, rest)) = (parse_line line, rest)
finish_line buf (err e) = (err e, buf)
finish_line buf panic = (panic, buf)

unfoldable pub parse_at : Bytes → Option ℕ → ParseResult XvcInfo × Bytes
unfolding finish_line
parse_at buf none = (err incomplete, buf)
parse_at buf (some newline_index) = finish_line buf (cut_line newline_index buf)

unfoldable pub parse : Parser XvcInfo
unfolding parse_at
parse buf = parse_at buf (position newline buf)
