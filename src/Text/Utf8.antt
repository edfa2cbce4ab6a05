-- ===== src/Text/Utf8.antt =====
-- The UTF-8 decoder of the text functions on ASCII text, and its panics.
use xvc_rs.Prelude.{
  ℕ, zero, ◌+◌, ◌<◌, ◌≡◌, refl, none, [], ◌∷◌, arith, Bytes, All, ok, Safe, lt→ltb, Option-cases,
  inl, inr,
}
use xvc_rs.Text.{sequence, validate, from_utf8, good}

abbrev pub IsAscii : Bytes → Type 0
IsAscii = All (λ b. b < 0x80)

sequence-ascii : (b : ℕ) (s : Bytes) → b < 0x80 → sequence b s ≡ good 0
unfolding sequence
sequence-ascii b s h = rw (lt→ltb b 0x80 h)

validate-ascii : (s : Bytes) (pos : ℕ) → IsAscii s → validate s zero pos ≡ none
unfolding validate
validate-ascii [] pos h = refl
validate-ascii (b ∷ s) pos (hb, h) =
    rw (sequence-ascii b s hb, validate) (validate-ascii s (pos + 1) h)

pub from_utf8-ascii : (s : Bytes) → IsAscii s → from_utf8 s ≡ ok s
unfolding from_utf8
from_utf8-ascii s h = rw (validate-ascii s 0 h, from_utf8)

pub from_utf8-Safe : (s : Bytes) → Safe (from_utf8 s)
unfolding from_utf8
from_utf8-Safe s = ground arith

-- A text is its bytes.
pub from_utf8-eq-ok : (s : Bytes) {t : Bytes} → from_utf8 s ≡ ok t → t ≡ s
unfolding from_utf8
from_utf8-eq-ok s h = elim (Option-cases (validate s 0 0)) [
  | inl e ↦ cc (rw (e, from_utf8) at h)
  | inr (x, e) ↦ cc (rw (e, from_utf8) at h)
]
