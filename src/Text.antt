-- ===== src/Text.antt =====
-- The standard library's text functions that the protocol crate calls: `from_utf8`,
-- `from_utf8_lossy`, `str::parse` for unsigned integers, `Display` for them, `split_once`,
-- `position` and `strip_prefix`. A `&str` is its bytes.
pub mod Decimal
pub mod Search
pub mod Utf8
pub mod Numeral
use xvc_rs.Prelude.{
  ℕ, zero, suc, ◌+◌, ◌-◌, ◌*◌, ◌/◌, ◌%◌, ◌^◌, Bool, true, false, ◌&&◌, ◌||◌, Option, none, some, [],
  ◌∷◌, ◌++◌, Bytes, Outcome, ok, err, ltb, leb, ◌==◌, if◌then◌else◌, length, drop, starts_with,
}

-- `Utf8Error`: the length of the valid part, and of the invalid sequence unless the input ends in it.
pub record Utf8Error : Type 0 where
  pub valid_up_to : ℕ
  pub error_len : Option ℕ

-- The sequence at the front of a text: its further bytes, or the length of what is invalid.
pub data Sequence : Type 0 where
  good : ℕ → Sequence
  bad : Option ℕ → Sequence

abbrev between : ℕ → ℕ → ℕ → Bool
between lo hi b = leb lo b && leb b hi

abbrev is_continuation : ℕ → Bool
is_continuation = between 0x80 0xbf

-- The bytes from the `k`th on must be continuations, `k + n` in all.
continuations : ℕ → ℕ → Bytes → Sequence
continuations k zero s = good (k - 1)
continuations k (suc n) [] = bad none
continuations k (suc n) (b ∷ s) =
    let rest = continuations (k + 1) n s in if is_continuation b then rest else bad (some k)

-- The range that the first byte leaves to the second, and the continuations after it.
second : ℕ → ℕ → ℕ → Bytes → Sequence
second lo hi n [] = bad none
second lo hi n (b ∷ s) = if between lo hi b then continuations 2 n s else bad (some 1)

sequence : ℕ → Bytes → Sequence
unfolding second continuations
sequence b s =
    if ltb b 0x80
    then good 0
    else if between 0xc2 0xdf b
    then second 0x80 0xbf 0 s
    else if b == 0xe0
    then second 0xa0 0xbf 1 s
    else if between 0xe1 0xec b || between 0xee 0xef b
    then second 0x80 0xbf 1 s
    else if b == 0xed
    then second 0x80 0x9f 1 s
    else if b == 0xf0
    then second 0x90 0xbf 2 s
    else if between 0xf1 0xf3 b
    then second 0x80 0xbf 2 s
    else if b == 0xf4
    then second 0x80 0x8f 2 s
    else bad (some 1)

-- `skip` bytes belong to a sequence that was checked, and `pos` bytes lie behind.
validate : Bytes → ℕ → ℕ → Option Utf8Error
validate [] skip pos = none
validate (b ∷ s) (suc skip) pos = validate s skip (pos + 1)
validate (b ∷ s) zero pos = elim (sequence b s) [
  | good n ↦ validate s n (pos + 1)
  | bad len ↦ some (record { valid_up_to = pos; error_len = len })
]

unfoldable pub from_utf8 : Bytes → Outcome Utf8Error Bytes
unfolding validate sequence
from_utf8 s = elim (validate s 0 0) [ none ↦ ok s | some e ↦ err e ]

-- U+FFFD
abbrev replacement : Bytes
replacement = 0xef ∷ 0xbf ∷ 0xbd ∷ []

-- `keep` bytes belong to a valid sequence, `skip` bytes to one that was replaced.
replace : Bytes → ℕ → ℕ → Bytes
replace [] keep skip = []
replace (b ∷ s) (suc keep) skip = b ∷ replace s keep skip
replace (b ∷ s) zero (suc skip) = replace s zero skip
replace (b ∷ s) zero zero = elim (sequence b s) [
  | good n ↦ b ∷ replace s n 0
  | bad none ↦ replacement
  | bad (some len) ↦ replacement ++ replace s 0 (len - 1)
]

unfoldable pub from_utf8_lossy : Bytes → Bytes
unfolding replace sequence
from_utf8_lossy s = replace s 0 0

pub data ParseIntError : Type 0 where
  empty invalid_digit pos_overflow : ParseIntError

abbrev pub is_digit : ℕ → Bool
is_digit = between b'0' b'9'

unfoldable pub scan_uint : ℕ → Bytes → ℕ → Outcome ParseIntError ℕ
scan_uint max [] n = ok n
scan_uint max (c ∷ s) n =
    let rest = scan_uint max s (n * 10 + (c - b'0')) in
    if is_digit c
    then if ltb max (n * 10 + (c - b'0')) then err pos_overflow else rest
    else err invalid_digit

-- `s.parse` at an unsigned type whose greatest value is `max`: one leading plus sign is allowed.
unfoldable pub parse_uint : ℕ → Bytes → Outcome ParseIntError ℕ
unfolding scan_uint
parse_uint max [] = err empty
parse_uint max (c ∷ []) =
    if c == b'+' || c == b'-' then err invalid_digit else scan_uint max (c ∷ []) 0
parse_uint max (c ∷ d ∷ s) =
    if c == b'+' then scan_uint max (d ∷ s) 0 else scan_uint max (c ∷ d ∷ s) 0

abbrev pub max_u32 : ℕ
max_u32 = 2 ^ 32 - 1

abbrev pub max_usize : ℕ
max_usize = 2 ^ 64 - 1

-- Decimal digits in front of `out`; each unit of fuel pays for one digit.
unfoldable pub decimal_onto : ℕ → ℕ → Bytes → Bytes
decimal_onto zero n out = out
decimal_onto (suc f) n out =
    let rest = decimal_onto f (n / 10) ((b'0' + n % 10) ∷ out) in
    if ltb n 10 then (b'0' + n) ∷ out else rest

-- `Display` of an unsigned integer: 20 digits are enough for 64 bits.
unfoldable pub decimal : ℕ → Bytes
unfolding decimal_onto
decimal n = decimal_onto 20 n []

-- `s.iter().position(|b| *b == c)`
unfoldable pub position : ℕ → Bytes → Option ℕ
position c [] = none
position c (b ∷ s) =
    let rest : Option ℕ = elim (position c s) [ none ↦ none | some i ↦ some (suc i) ] in
    if b == c then some 0 else rest

-- `s.strip_prefix(p)`
unfoldable pub strip_prefix : Bytes → Bytes → Option Bytes
strip_prefix s p = if starts_with s p then some (drop (length p) s) else none

-- `s.split_once(c)` for a byte `c`
unfoldable pub split_once : ℕ → Bytes → Option (Bytes × Bytes)
split_once c [] = none
split_once c (b ∷ s) =
    let rest : Option (Bytes × Bytes) = elim (split_once c s) [
      | none ↦ none
      | some (l, r) ↦ some (b ∷ l, r)
    ] in
    if b == c then some ([], s) else rest
