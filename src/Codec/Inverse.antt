-- ===== src/Codec/Inverse.antt =====
-- What the parsers of xvc-protocol/src/codec.rs accept, by the bytes that they have taken.
use native.Mathlib.Decide.{dec_le}
use mathlib.Core.Path.{subst}
use xvc_rs.Prelude.{
  ℕ, ◌≤◌, ◌<◌, ◌^◌, ◌≡◌, refl, sym, ap, ◌∙◌, inl, inr, ◌∷◌, ◌++◌, arith, Bytes, AllU8, ok, length,
  take, drop, length-take, take-append-drop, div_ceil, from_le_bytes, to_le_bytes,
  to_le_bytes-from_le_bytes, from_le_bytes-lt,
}
use xvc_rs.Protocol.{Message, XvcCommand}
use xvc_rs.Codec.Command
use xvc_rs.Codec.SetTck
use xvc_rs.Codec.Shift
use xvc_rs.Codec.Shift.{Shift}
use xvc_rs.Rw.Write.{IsWire}

pub command-eq-ok :
    (s : Bytes) (c : XvcCommand) (r : Bytes) → Command.parse s ≡ (ok c, r) → s ≡ Command.name c ++ r
command-eq-ok s c r h = elim (Command.parse-cases s) [
  | inl (c', r', e) ↦
      let parsed = sym (Command.parse-name c' r') ∙ (ap Command.parse (sym e) ∙ h) in
      let same : c' ≡ c = cc parsed in let left : r' ≡ r = cc parsed in rw (e, same, left) refl
  | inr (inl (w, _)) ↦ cc (sym w ∙ h)
  | inr (inr f) ↦ cc (sym (Command.parse-IsForeign s f) ∙ h)
]

pub set_tck-eq-ok :
    (s : Bytes) (p : ℕ) (r : Bytes)
    → AllU8 s
    → SetTck.parse s ≡ (ok p, r)
    → (s ≡ to_le_bytes p ++ r) × (p < 2 ^ 32)
set_tck-eq-ok (a ∷ b ∷ c ∷ d ∷ s) p r (ha, (hb, (hc, (hd, _)))) h =
    let parsed = sym (SetTck.parse_lem a b c d s) ∙ h in
    let same : from_le_bytes a b c d ≡ p = cc parsed in
    let left : s ≡ r = cc parsed in
    rw (← same, ← left)
      (
        ap (λ t. t ++ s) (sym (to_le_bytes-from_le_bytes a b c d ha hb hc hd)),
        from_le_bytes-lt a b c d ha hb hc hd,
      )
set_tck-eq-ok s p r u h = cc (sym (SetTck.parse_short s (omega arith)) ∙ h)

-- The shift that the parser makes of enough bytes.
abbrev taken : ℕ → ℕ → Bytes → Shift
taken n k s = record { num_bits = n; tdi = take k (drop k s); tms = take k s }

abbrev Accepted : ℕ → Bytes → Shift → Bytes → Type 0
Accepted max s shift r =
    (s ≡ to_le_bytes shift.num_bits ++ (shift.tms ++ (shift.tdi ++ r)))
    × IsWire max (Message.shift shift.num_bits shift.tms shift.tdi)

cut_twice : (k : ℕ) (s : Bytes) → s ≡ take k s ++ (take k (drop k s) ++ drop k (drop k s))
cut_twice k s = sym (ap (λ t. take k s ++ t) (take-append-drop k (drop k s)) ∙ take-append-drop k s)

shift-Accepted :
    (max a b c d : ℕ) (s : Bytes)
    → AllU8 (a ∷ b ∷ c ∷ d ∷ s)
    → let n = from_le_bytes a b c d in
      let k = div_ceil n 8 in
      k ≤ max
      → k ≤ length s
      → k ≤ length (drop k s)
      → Accepted max (a ∷ b ∷ c ∷ d ∷ s) (taken n k s) (drop k (drop k s))
shift-Accepted max a b c d s (ha, (hb, (hc, (hd, _)))) fits long whole =
    let n = from_le_bytes a b c d in
    let k = div_ceil n 8 in
    (
      ap (λ t. a ∷ b ∷ c ∷ d ∷ t) (cut_twice k s)
          ∙ ap (λ t. t ++ (take k s ++ (take k (drop k s) ++ drop k (drop k s))))
              (sym (to_le_bytes-from_le_bytes a b c d ha hb hc hd)),
      (
        from_le_bytes-lt a b c d ha hb hc hd,
        length-take k s long,
        length-take k (drop k s) whole,
        fits,
      ),
    )

pub shift-eq-ok :
    (max : ℕ) (s : Bytes) (shift : Shift) (r : Bytes)
    → AllU8 s
    → Shift.parse max s ≡ (ok shift, r)
    → Accepted max s shift r
shift-eq-ok max (a ∷ b ∷ c ∷ d ∷ s) shift r u h =
    let n = from_le_bytes a b c d in
    let k = div_ceil n 8 in
    elim (dec_le k max) [
      | no over ↦ cc (sym (Shift.parse_over max a b c d s (omega arith)) ∙ h)
      | yes fits ↦ elim (dec_le k (length s)) [
        | no short ↦ cc (sym (Shift.parse_no_tms max a b c d s fits (omega arith)) ∙ h)
        | yes long ↦ elim (dec_le k (length (drop k s))) [
          | no short ↦ cc (sym (Shift.parse_no_tdi max a b c d s fits long (omega arith)) ∙ h)
          | yes whole ↦
              let parsed = sym (Shift.parse_whole max a b c d s fits long whole) ∙ h in
              let same : taken n k s ≡ shift = cc parsed in
              let left : drop k (drop k s) ≡ r = cc parsed in
              subst (λ x. Accepted max (a ∷ b ∷ c ∷ d ∷ s) x r) same
                (subst (λ x. Accepted max (a ∷ b ∷ c ∷ d ∷ s) (taken n k s) x) left
                  (shift-Accepted max a b c d s u fits long whole))
        ]
      ]
    ]
shift-eq-ok max s shift r u h = cc (sym (Shift.parse_short max s (omega arith)) ∙ h)
