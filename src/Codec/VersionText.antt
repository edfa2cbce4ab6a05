-- ===== src/Codec/VersionText.antt =====
-- `impl FromStr for Version` of xvc-protocol/src/protocol.rs, and what it reads of a printed version.
use xvc_rs.Prelude.{◌^◌, ◌<◌, ◌≡◌, arith, Bytes, Outcome, ok, ◌>>=◌, ok_or, map_err, inl}
use xvc_rs.Text.{split_once, parse_uint, max_usize, decimal}
use xvc_rs.Text.Decimal.{decimal-IsDigit, parse_uint-decimal}
use xvc_rs.Text.Numeral.{digits-Lacks}
use xvc_rs.Text.Search.{split_once-append}
use xvc_rs.Errors.{ParseVersionError, missing_dot, parse_int}
use xvc_rs.Protocol.{Version}
use xvc_rs.Rw.Write.{show_version}

unfoldable pub from_str : Bytes → Outcome ParseVersionError Version
from_str s = do
  (major_part, minor_part) ← ok_or (split_once b'.' s) missing_dot
  major ← map_err parse_int (parse_uint max_usize major_part)
  minor ← map_err parse_int (parse_uint max_usize minor_part)
  ok (record { major = major; minor = minor })

-- Each component is a `usize`.
abbrev pub IsVersion : Version → Type 0
IsVersion v = (v.major < 2 ^ 64) × (v.minor < 2 ^ 64)

-- A version whose parts are below 2 ^ 64 is read back from its printed form.
pub from_str-show_version : (v : Version) → IsVersion v → from_str (show_version v) ≡ ok v
unfolding from_str show_version
from_str-show_version v (h, g) = rw (
  split_once-append b'.' (decimal v.major) (decimal v.minor)
      (digits-Lacks b'.' _ (inl (omega arith)) (decimal-IsDigit v.major)),
  parse_uint-decimal max_usize v.major (omega arith) (omega arith),
  parse_uint-decimal max_usize v.minor (omega arith) (omega arith),
)
