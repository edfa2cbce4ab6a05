-- ===== src/Codec/Safe.antt =====
-- The parsers of xvc-protocol/src/codec.rs and protocol.rs, and the slices that they cut.
use native.Mathlib.Decide.{dec_le}
use xvc_rs.Prelude.{
  ℕ, ◌+◌, ◌<◌, inl, inr, [], ◌∷◌, arith, Bytes, ok, err, length, drop, from_le_bytes, div_ceil,
  Safe, Safe->>=, Safe-map_err, Safe-ok_or, ok_or, map_err, ◌*◌, ◌-◌, Option-cases, slice_to,
  slice_from, slice_to-Safe, slice_from-Safe, ok_or-eq-ok, panic,
}
use xvc_rs.Text.{
  scan_uint, parse_uint, split_once, position, from_utf8, strip_prefix, max_u32, max_usize,
}
use xvc_rs.Text.Search.{position-lt}
use xvc_rs.Text.Utf8.{from_utf8-Safe}
use xvc_rs.Errors.{
  ParseErr, missing_dot, parse_int, utf8_error, parse_int_error, parse_version_error,
}
use xvc_rs.Codec.Parser.{ParseResult}
use xvc_rs.Codec.Command
use xvc_rs.Codec.SetTck
use xvc_rs.Codec.Shift
use xvc_rs.Codec.Info
use xvc_rs.Codec.Info.{newline, xvc_server_prefix, parse_line, cut_line, finish_line, parse_at}
use xvc_rs.Codec.VersionText.{from_str}

pub command-Safe : (s : Bytes) → Safe (Command.parse s).0
command-Safe s = elim (Command.parse-cases s) [
  | inl (c, r, e) ↦ rw e (rw (Command.parse-name c r) tt)
  | inr (inl (w, _)) ↦ rw w tt
  | inr (inr f) ↦ rw (Command.parse-IsForeign s f) tt
]

pub set_tck-Safe : (s : Bytes) → Safe (SetTck.parse s).0
set_tck-Safe (a ∷ b ∷ c ∷ d ∷ r) = rw (SetTck.parse_lem a b c d r) tt
set_tck-Safe s = rw (SetTck.parse_short s (omega arith)) tt

pub shift-Safe : (max : ℕ) (s : Bytes) → Safe (Shift.parse max s).0
shift-Safe max (a ∷ b ∷ c ∷ d ∷ r) =
    let k = div_ceil (from_le_bytes a b c d) 8 in
    elim (dec_le k max) [
      | no over ↦ rw (Shift.parse_over max a b c d r (omega arith)) tt
      | yes fits ↦ elim (dec_le k (length r)) [
        | no short ↦ rw (Shift.parse_no_tms max a b c d r fits (omega arith)) tt
        | yes long ↦ elim (dec_le k (length (drop k r))) [
          | no short ↦ rw (Shift.parse_no_tdi max a b c d r fits long (omega arith)) tt
          | yes whole ↦ rw (Shift.parse_whole max a b c d r fits long whole) tt
        ]
      ]
    ]
shift-Safe max s = rw (Shift.parse_short max s (omega arith)) tt

scan_uint-Safe : (max : ℕ) (s : Bytes) (n : ℕ) → Safe (scan_uint max s n)
unfolding scan_uint
scan_uint-Safe max [] n = tt
scan_uint-Safe max (c ∷ s) n = ground (arith, scan_uint-Safe max s (n * 10 + (c - b'0')))

parse_uint-Safe : (max : ℕ) (s : Bytes) → Safe (parse_uint max s)
unfolding parse_uint
parse_uint-Safe max [] = tt
parse_uint-Safe max (c ∷ []) = ground (arith, scan_uint-Safe max (c ∷ []) 0)
parse_uint-Safe max (c ∷ d ∷ s) =
    ground (arith, scan_uint-Safe max (d ∷ s) 0, scan_uint-Safe max (c ∷ d ∷ s) 0)

from_str-Safe : (s : Bytes) → Safe (from_str s)
unfolding from_str
from_str-Safe s = Safe->>= (ok_or (split_once b'.' s) missing_dot) _ (Safe-ok_or _ _) λ (l, r) _.
    Safe->>= (map_err parse_int (parse_uint max_usize l)) _
      (Safe-map_err _ _ (parse_uint-Safe max_usize l))
      λ _ _.
        Safe->>= (map_err parse_int (parse_uint max_usize r)) _
          (Safe-map_err _ _ (parse_uint-Safe max_usize r)) λ _ _. tt

parse_line-Safe : (line : Bytes) → Safe (parse_line line)
unfolding parse_line
parse_line-Safe line =
    Safe->>= (ok_or (strip_prefix line xvc_server_prefix) (ParseErr.invalid_command line)) _
      (Safe-ok_or _ _)
      λ rest _.
        Safe->>= (ok_or (position b':' rest) (ParseErr.invalid_command line)) _ (Safe-ok_or _ _)
          λ i found.
            let inside = position-lt b':' rest i (ok_or-eq-ok _ _ found) in
            Safe->>= (slice_to i rest) _ (slice_to-Safe ParseErr i rest (omega arith)) λ before _.
              Safe->>= (map_err utf8_error (from_utf8 before)) _
                (Safe-map_err _ _ (from_utf8-Safe before))
                λ text _.
                  Safe->>= (map_err parse_version_error (from_str text)) _
                    (Safe-map_err _ _ (from_str-Safe text))
                    λ version _.
                      Safe->>= (slice_from (i + 1) rest) _
                        (slice_from-Safe ParseErr (i + 1) rest (omega arith))
                        λ after _.
                          Safe->>= (map_err utf8_error (from_utf8 after)) _
                            (Safe-map_err _ _ (from_utf8-Safe after))
                            λ digits _.
                              Safe->>= (map_err parse_int_error (parse_uint max_u32 digits)) _
                                (Safe-map_err _ _ (parse_uint-Safe max_u32 digits)) λ _ _. tt

finish_line-Safe :
    (buf : Bytes) (cut : ParseResult (Bytes × Bytes)) → Safe cut → Safe (finish_line buf cut).0
unfolding finish_line
finish_line-Safe buf (ok (line, rest)) h = parse_line-Safe line
finish_line-Safe buf (err e) h = tt
finish_line-Safe buf panic h = h

cut_line-Safe : (i : ℕ) (buf : Bytes) → i < length buf → Safe (cut_line i buf)
unfolding cut_line
cut_line-Safe i buf h =
    Safe->>= (slice_to i buf) _ (slice_to-Safe ParseErr i buf (omega arith)) λ _ _.
      Safe->>= (slice_from (i + 1) buf) _ (slice_from-Safe ParseErr (i + 1) buf (omega arith))
        λ _ _. tt

-- `XvcInfo::parse` panics on no bytes: none of its slices is out of range.
pub info-Safe : (s : Bytes) → Safe (Info.parse s).0
unfolding Info.parse
info-Safe s = elim (Option-cases (position newline s)) [
  | inl e ↦ rw e tt
  | inr (i, e) ↦
      rw e (finish_line-Safe s (cut_line i s) (cut_line-Safe i s (position-lt newline s i e)))
]
