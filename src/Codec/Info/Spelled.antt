-- ===== src/Codec/Info/Spelled.antt =====
-- The server infos that `XvcInfo::parse` accepts.
use xvc_rs.Prelude.{
  ℕ, suc, ◌+◌, ◌<◌, ◌≡◌, ◌≢◌, ◌⊎◌, refl, sym, ◌∙◌, ap, inl, inr, some, Option-cases, ◌∷◌, ◌++◌,
  arith, Bytes, All-append, ok, err, panic, ok_or, ok_or-eq-ok, map_err, map_err-eq-ok, front_of_ok,
  slice_to, slice_from, slice_to-eq-ok, slice_from-eq-ok, slice_to_left, slice_from_next, take,
  drop, length,
}
use xvc_rs.Text.{split_once, parse_uint, position, strip_prefix, from_utf8, max_u32, max_usize}
use xvc_rs.Text.Numeral.{
  Numeral, parse_uint-Numeral, parse_uint-eq-ok, Numeral-Lacks, Numeral-IsAscii,
}
use xvc_rs.Text.Search.{
  Lacks, position-append, position-eq-some, split_once-append, split_once-eq-some,
  strip_prefix-append, strip_prefix-eq-some,
}
use xvc_rs.Text.Utf8.{IsAscii, from_utf8-ascii, from_utf8-eq-ok}
use xvc_rs.Errors.{
  ParseErr, missing_dot, parse_int, utf8_error, parse_int_error, parse_version_error,
}
use xvc_rs.Protocol.{Version, XvcInfo}
use xvc_rs.Codec.Parser.{ParseResult}
use xvc_rs.Codec.VersionText.{from_str}
use xvc_rs.Codec.Info.{parse, parse_line, cut_line, finish_line, newline, xvc_server_prefix}

-- Two numerals of a `usize` with a dot between them.
abbrev pub SpellsVersion : Bytes → Version → Type 0
SpellsVersion s v =
    (major : Bytes) × (minor : Bytes) × (s ≡ major ++ b'.' ∷ minor)
    × Numeral max_usize major v.major
    × Numeral max_usize minor v.minor

-- A line without its newline: the prefix, a version, a colon and a numeral of a `u32`.
abbrev pub Spells : Bytes → XvcInfo → Type 0
Spells line i =
    (version : Bytes) × (max_vector_len : Bytes) × (line
      ≡ xvc_server_prefix ++ (version ++ b':' ∷ max_vector_len))
    × SpellsVersion version i.version
    × Numeral max_u32 max_vector_len i.max_vector_len

-- A buffer with such a line at its front.
abbrev pub Begins : Bytes → XvcInfo → Bytes → Type 0
Begins buf i rest = (line : Bytes) × (buf ≡ line ++ newline ∷ rest) × Spells line i

from_str-SpellsVersion : (s : Bytes) (v : Version) → SpellsVersion s v → from_str s ≡ ok v
unfolding from_str
from_str-SpellsVersion s v (major, minor, e, h, g) = rw (
  e,
  split_once-append b'.' major minor
      (Numeral-Lacks max_usize b'.' major v.major (omega arith) (inl (omega arith)) h),
  parse_uint-Numeral max_usize major v.major h,
  parse_uint-Numeral max_usize minor v.minor g,
)

from_str-eq-ok : (s : Bytes) (v : Version) → from_str s ≡ ok v → SpellsVersion s v
unfolding from_str
from_str-eq-ok s v h =
    let ((l, r), e, h₁) = front_of_ok (ok_or (split_once b'.' s) missing_dot) _ h in
    let (a, ea, h₂) = front_of_ok (map_err parse_int (parse_uint max_usize l)) _ h₁ in
    let (b, eb, h₃) = front_of_ok (map_err parse_int (parse_uint max_usize r)) _ h₂ in
    let ma : a ≡ v.major = cc h₃ in
    let mb : b ≡ v.minor = cc h₃ in
    (
      l,
      r,
      split_once-eq-some b'.' s (ok_or-eq-ok _ _ e),
      parse_uint-eq-ok max_usize l (map_err-eq-ok _ _ ea ∙ ap ok ma),
      parse_uint-eq-ok max_usize r (map_err-eq-ok _ _ eb ∙ ap ok mb),
    )

version-Lacks :
    (c : ℕ) (s : Bytes) (v : Version)
    → c ≢ b'+'
    → c ≢ b'.'
    → (c < b'0') ⊎ (b'9' < c)
    → SpellsVersion s v
    → Lacks c s
version-Lacks c s v plus dot far (major, minor, e, h, g) = rw e (
    All-append _ major _ (Numeral-Lacks max_usize c major v.major plus far h)
      (λ x. dot (sym x), Numeral-Lacks max_usize c minor v.minor plus far g))

version-IsAscii : (s : Bytes) (v : Version) → SpellsVersion s v → IsAscii s
version-IsAscii s v (major, minor, e, h, g) = rw e (
    All-append _ major _ (Numeral-IsAscii max_usize major v.major h)
      (omega arith, Numeral-IsAscii max_usize minor v.minor g))

Spells-Lacks : (line : Bytes) (i : XvcInfo) → Spells line i → Lacks newline line
Spells-Lacks line i (version, len, e, v, n) = rw e (
    All-append _ xvc_server_prefix _ (omega arith) (
      All-append _ version _
        (version-Lacks newline version i.version (omega arith) (omega arith) (inl (omega arith)) v)
        (
          omega arith,
          Numeral-Lacks max_u32 newline len i.max_vector_len (omega arith) (inl (omega arith)) n,
        )))

parse_line-Spells : (line : Bytes) (i : XvcInfo) → Spells line i → parse_line line ≡ ok i
unfolding parse_line
parse_line-Spells line i (version, len, e, v, n) = rw (
  e,
  strip_prefix-append xvc_server_prefix (version ++ b':' ∷ len),
  position-append b':' version len
      (version-Lacks b':' version i.version (omega arith) (omega arith) (inr (omega arith)) v),
  slice_to_left {E = ParseErr} version (b':' ∷ len),
  from_utf8-ascii version (version-IsAscii version i.version v),
  from_str-SpellsVersion version i.version v,
  slice_from_next {E = ParseErr} version b':' len,
  from_utf8-ascii len (Numeral-IsAscii max_u32 len i.max_vector_len n),
  parse_uint-Numeral max_u32 len i.max_vector_len n,
)

cut_at :
    (rest text digits : Bytes) (colon : ℕ)
    → text ≡ take colon rest
    → digits ≡ drop (colon + 1) rest
    → position b':' rest ≡ some colon
    → rest ≡ text ++ b':' ∷ digits
cut_at rest text digits colon front back found =
    let next : suc colon ≡ colon + 1 = omega arith in
    rw (front, back, sym next) (position-eq-some b':' rest found)

parse_line-eq-ok : (line : Bytes) (i : XvcInfo) → parse_line line ≡ ok i → Spells line i
unfolding parse_line
parse_line-eq-ok line i h =
    let (rest, e₁, h₁) =
      front_of_ok (ok_or (strip_prefix line xvc_server_prefix) (ParseErr.invalid_command line)) _
        h in
    let (colon, e₂, h₂) =
      front_of_ok (ok_or (position b':' rest) (ParseErr.invalid_command line)) _ h₁ in
    let (before, e₃, h₃) = front_of_ok (slice_to {E = ParseErr} colon rest) _ h₂ in
    let (text, e₄, h₄) = front_of_ok (map_err utf8_error (from_utf8 before)) _ h₃ in
    let (version, e₅, h₅) = front_of_ok (map_err parse_version_error (from_str text)) _ h₄ in
    let (after, e₆, h₆) = front_of_ok (slice_from {E = ParseErr} (colon + 1) rest) _ h₅ in
    let (digits, e₇, h₇) = front_of_ok (map_err utf8_error (from_utf8 after)) _ h₆ in
    let (len, e₈, h₈) = front_of_ok (map_err parse_int_error (parse_uint max_u32 digits)) _ h₇ in
    let v : version ≡ i.version = cc h₈ in
    let n : len ≡ i.max_vector_len = cc h₈ in
    (
      text,
      digits,
      strip_prefix-eq-some line xvc_server_prefix (ok_or-eq-ok _ _ e₁)
          ∙ ap (λ t. xvc_server_prefix ++ t)
              (cut_at rest text digits colon
                (from_utf8-eq-ok before (map_err-eq-ok _ _ e₄) ∙ slice_to-eq-ok colon rest e₃)
                (from_utf8-eq-ok after (map_err-eq-ok _ _ e₇)
                  ∙ slice_from-eq-ok (colon + 1) rest e₆)
                (ok_or-eq-ok _ _ e₂)),
      from_str-eq-ok text i.version (map_err-eq-ok _ _ e₅ ∙ ap ok v),
      parse_uint-eq-ok max_u32 digits (map_err-eq-ok _ _ e₈ ∙ ap ok n),
    )

cut_line-line : (p r : Bytes) → cut_line (length p) (p ++ newline ∷ r) ≡ ok (p, r)
unfolding cut_line
cut_line-line p r =
    rw (slice_to_left {E = ParseErr} p (newline ∷ r), slice_from_next {E = ParseErr} p newline r)

pub parse-Begins :
    (buf : Bytes) (i : XvcInfo) (rest : Bytes) → Begins buf i rest → parse buf ≡ (ok i, rest)
unfolding parse
parse-Begins buf i rest (line, e, spells) = rw (
  e,
  position-append newline line rest (Spells-Lacks line i spells),
  cut_line-line line rest,
  parse_line-Spells line i spells,
)

cut_line-eq-ok :
    (n : ℕ) (buf line rest : Bytes)
    → cut_line n buf ≡ ok (line, rest)
    → (line ≡ take n buf) × (rest ≡ drop (n + 1) buf)
unfolding cut_line
cut_line-eq-ok n buf line rest h =
    let (a, ea, h₁) = front_of_ok (slice_to {E = ParseErr} n buf) _ h in
    let (b, eb, h₂) = front_of_ok (slice_from {E = ParseErr} (n + 1) buf) _ h₁ in
    let front : a ≡ line = cc h₂ in
    let back : b ≡ rest = cc h₂ in
    (sym front ∙ slice_to-eq-ok n buf ea, sym back ∙ slice_from-eq-ok (n + 1) buf eb)

finish_line-Begins :
    (n : ℕ) (buf : Bytes) (cut : ParseResult (Bytes × Bytes)) (i : XvcInfo) (rest : Bytes)
    → position newline buf ≡ some n
    → cut_line n buf ≡ cut
    → finish_line buf cut ≡ (ok i, rest)
    → Begins buf i rest
unfolding finish_line
finish_line-Begins n buf (ok (line, after)) i rest found e h =
    let (front, back) = cut_line-eq-ok n buf line after e in
    let same : after ≡ rest = cc h in
    let next : suc n ≡ n + 1 = omega arith in
    (
      line,
      rw (front, ← same, back, sym next) (position-eq-some newline buf found),
      parse_line-eq-ok line i (cc h),
    )
finish_line-Begins n buf (err x) i rest found e h = cc
finish_line-Begins n buf panic i rest found e h = cc

pub parse-eq-ok :
    (buf : Bytes) (i : XvcInfo) (rest : Bytes) → parse buf ≡ (ok i, rest) → Begins buf i rest
unfolding parse
parse-eq-ok buf i rest h = elim (Option-cases (position newline buf)) [
  | inl e ↦ cc (rw e at h)
  | inr (n, e) ↦ finish_line-Begins n buf (cut_line n buf) i rest e refl (rw e at h)
]
