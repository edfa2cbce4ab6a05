-- ===== src/Codec/SetTck.antt =====
-- `SetTck::parse` of xvc-protocol/src/codec.rs.
use xvc_rs.Prelude.{
  ℕ, ◌^◌, ◌<◌, ◌≡◌, ◌∷◌, ◌++◌, to_le_bytes, from_le_bytes-to_le_bytes, arith, Bytes, ok, err,
  length, from_le_bytes, ltb, if◌then◌else◌, le→ltb, lt→ltb,
}
use xvc_rs.Errors.{incomplete}
use xvc_rs.Codec.Parser.{Parser, commit}
use xvc_rs.Codec.SliceReader.{remaining, get_u32_le, get_u32_le_lem}

unfoldable pub parse : Parser ℕ
parse buf = if ltb (remaining buf) 4 then (err incomplete, buf) else commit buf (get_u32_le buf)

pub parse_lem :
    (a b c d : ℕ) (r : Bytes) → parse (a ∷ b ∷ c ∷ d ∷ r) ≡ (ok (from_le_bytes a b c d), r)
unfolding parse
parse_lem a b c d r =
    rw (le→ltb (length (a ∷ b ∷ c ∷ d ∷ r)) 4 (omega arith), get_u32_le_lem a b c d r)

pub parse_short : (s : Bytes) → length s < 4 → parse s ≡ (err incomplete, s)
unfolding parse
parse_short s h = rw (lt→ltb (length s) 4 h)

pub parse-to_le_bytes : (p : ℕ) (r : Bytes) → p < 2 ^ 32 → parse (to_le_bytes p ++ r) ≡ (ok p, r)
parse-to_le_bytes p r h = rw (parse_lem _ _ _ _ r) (rw (from_le_bytes-to_le_bytes p h))
