-- ===== src/Text/Search.antt =====
-- Searching a text for a byte.
use xvc_rs.Prelude.{
  ℕ, ◌≡◌, ◌≢◌, refl, none, some, Option, [], ◌∷◌, ◌++◌, arith, Bytes, All, length, ◌<◌, inl, inr,
  Option-cases, append→starts_with, drop_left, Bool-cases, ==_iff, ◌==◌, starts_with,
  starts_with→append, ap, ◌∙◌, take, drop, suc,
}
use xvc_rs.Text.{position, strip_prefix, split_once}

-- The byte `c` stands nowhere in a text.
abbrev pub Lacks : ℕ → Bytes → Type 0
Lacks c = All (λ b. b ≢ c)

pub position-append : (c : ℕ) (p r : Bytes) → Lacks c p → position c (p ++ c ∷ r) ≡ some (length p)
unfolding position
position-append c [] r h = ground arith
position-append c (b ∷ p) r (hb, h) = ground (arith, position-append c p r h)

pub split_once-append : (c : ℕ) (p r : Bytes) → Lacks c p → split_once c (p ++ c ∷ r) ≡ some (p, r)
unfolding split_once
split_once-append c [] r h = ground arith
split_once-append c (b ∷ p) r (hb, h) = ground (arith, split_once-append c p r h)

pub position-Lacks : (c : ℕ) (s : Bytes) → Lacks c s → position c s ≡ none
unfolding position
position-Lacks c [] h = refl
position-Lacks c (b ∷ s) (hb, h) = ground (arith, position-Lacks c s h)

pub strip_prefix-append : (p r : Bytes) → strip_prefix (p ++ r) p ≡ some r
unfolding strip_prefix
strip_prefix-append p r = rw (append→starts_with p r, drop_left p r)

pub position-lt : (c : ℕ) (s : Bytes) (i : ℕ) → position c s ≡ some i → i < length s
unfolding position
position-lt c [] i h = cc
position-lt c (b ∷ s) i h = elim (Option-cases (position c s)) [
  | inl e ↦ ground (arith, e)
  | inr (j, e) ↦ ground (arith, e, position-lt c s j e)
]

-- What was found stands there.
pub split_once-eq-some :
    (c : ℕ) (s : Bytes) {l r : Bytes} → split_once c s ≡ some (l, r) → s ≡ l ++ c ∷ r
unfolding split_once
split_once-eq-some c [] h = cc
split_once-eq-some c (b ∷ s) {l} {r} h = elim (Bool-cases (b == c)) [
  | inl here ↦
      let found : ◌≡◌ {A = Option (Bytes × Bytes)} (some ([], s)) (some (l, r)) = rw here at h in
      let same : b ≡ c = (==_iff b c).0 here in cc
  | inr later ↦ elim (Option-cases (split_once c s)) [
    | inl e ↦ cc (rw (later, e) at h)
    | inr ((l', r'), e) ↦
        let found : ◌≡◌ {A = Option (Bytes × Bytes)} (some (b ∷ l', r')) (some (l, r)) =
          rw (later, e) at h in
        cc (split_once-eq-some c s e)
  ]
]

pub position-eq-some :
    (c : ℕ) (s : Bytes) {i : ℕ} → position c s ≡ some i → s ≡ take i s ++ c ∷ drop (suc i) s
unfolding position
position-eq-some c [] h = cc
position-eq-some c (b ∷ s) {i} h = elim (Bool-cases (b == c)) [
  | inl here ↦
      let found : some 0 ≡ some i = rw here at h in
      let first : i ≡ 0 = cc in rw first (rw ((==_iff b c).0 here) refl)
  | inr later ↦ elim (Option-cases (position c s)) [
    | inl e ↦ cc (rw (later, e) at h)
    | inr (j, e) ↦
        let found : some (suc j) ≡ some i = rw (later, e) at h in
        let next : i ≡ suc j = cc in rw next (ap (λ t. b ∷ t) (position-eq-some c s e))
  ]
]

pub strip_prefix-eq-some : (s p : Bytes) {r : Bytes} → strip_prefix s p ≡ some r → s ≡ p ++ r
unfolding strip_prefix
strip_prefix-eq-some s p {r} h = elim (Bool-cases (starts_with s p)) [
  | inl e ↦
      let found : some (drop (length p) s) ≡ some r = rw e at h in
      let same : drop (length p) s ≡ r = cc in starts_with→append s p e ∙ ap (λ t. p ++ t) same
  | inr e ↦ cc (rw e at h)
]
