-- ===== src/Codec/Info/RoundTrip.antt =====
-- `XvcInfo::parse` on a line that `XvcInfo::write_to` wrote.
use mathlib.Core.Path.{subst}
use xvc_rs.Prelude.{
  refl, ◌≢◌, sym, ◌∙◌, ap, append-nil, All-append_left, append-cases, length-append, length_pos, ℕ,
  ◌^◌, ◌<◌, ◌≡◌, ◌++◌, [], ◌∷◌, arith, Bytes, All-append, ok, length, append_assoc, inl, inr, ◌⊎◌,
}
use xvc_rs.Text.{decimal, max_u32, max_usize}
use xvc_rs.Text.Decimal.{decimal-IsDigit}
use xvc_rs.Text.Numeral.{digits-Lacks, decimal-Numeral}
use xvc_rs.Text.Search.{Lacks}
use xvc_rs.Protocol.{XvcInfo}
use xvc_rs.Codec.VersionText.{IsVersion}
use xvc_rs.Codec.Info.Spelled.{Spells, parse-Begins}
use xvc_rs.Codec.Info.{parse, newline, xvc_server_prefix}
use xvc_rs.Rw.Write.{show_version, info_line}

abbrev pub IsInfo : XvcInfo → Type 0
IsInfo i = IsVersion i.version × (i.max_vector_len < 2 ^ 32)

-- The text in front of the newline.
abbrev pub line : XvcInfo → Bytes
line i = xvc_server_prefix ++ (show_version i.version ++ b':' ∷ decimal i.max_vector_len)

show_version-Lacks :
    (c : ℕ) (i : XvcInfo) → (c < b'.') ⊎ (b'9' < c) → Lacks c (show_version i.version)
unfolding show_version
show_version-Lacks c i h =
    All-append _ _ _ (digits-Lacks c _ (omega arith) (decimal-IsDigit i.version.major))
      (omega arith, digits-Lacks c _ (omega arith) (decimal-IsDigit i.version.minor))

pub line-Lacks : (i : XvcInfo) → Lacks newline (line i)
line-Lacks i = All-append _ xvc_server_prefix _ (omega arith) (
    All-append _ (show_version i.version) _ (show_version-Lacks newline i (inl (omega arith)))
      (omega arith, digits-Lacks newline _ (inl (omega arith)) (decimal-IsDigit i.max_vector_len)))

pub info_line-line : (i : XvcInfo) (rest : Bytes) → info_line i ++ rest ≡ line i ++ newline ∷ rest
unfolding info_line
info_line-line i rest = simp append_assoc

line-Spells : (i : XvcInfo) → IsInfo i → Spells (line i) i
unfolding show_version
line-Spells i ((h, g), n) = (
  show_version i.version,
  decimal i.max_vector_len,
  refl,
  (
    decimal i.version.major,
    decimal i.version.minor,
    refl,
    decimal-Numeral max_usize i.version.major (omega arith) (omega arith),
    decimal-Numeral max_usize i.version.minor (omega arith) (omega arith),
  ),
  decimal-Numeral max_u32 i.max_vector_len (omega arith) (omega arith),
)

-- A written server info is read back, and what follows its line stays in the buffer.
pub parse-info_line :
    (i : XvcInfo) (rest : Bytes) → IsInfo i → parse (info_line i ++ rest) ≡ (ok i, rest)
parse-info_line i rest h =
    parse-Begins (info_line i ++ rest) i rest (line i, info_line-line i rest, line-Spells i h)

-- A part of a line that is not the whole of it has no newline.
pub Lacks-part : (i : XvcInfo) (s q : Bytes) → info_line i ≡ s ++ q → q ≢ [] → Lacks newline s
Lacks-part i s q e ne =
    elim (append-cases (line i) (newline ∷ []) s q
      (sym (info_line-line i []) ∙ (append-nil _ ∙ e))) [
        | inl (r, p, t) ↦ All-append_left _ s r (subst (Lacks newline) p (line-Lacks i))
        | inr (q', ne', p, t) ↦
            absurd (
              omega
                (arith, ap length t, length-append {0} q' q, length_pos q' ne', length_pos q ne))
      ]
