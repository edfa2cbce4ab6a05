-- ===== src/Prelude/Results.antt =====
-- The outcome of a Rust computation: `Ok`, `Err`, or a panic (a failed assertion, a slice index out
-- of range, an arithmetic overflow or a division by zero).
use mathlib.Core.Path.{◌≡◌, refl}
use mathlib.Core.Bool.{Bool, true, false}
use mathlib.Core.Logic.{◌⊎◌, inl, inr}
use mathlib.Core.Option.{Option, none, some}

pub data Outcome {ℓ κ} (E : Type ℓ) (A : Type κ) : Type (ℓ ⊔ κ) where
  ok : A → Outcome E A
  err : E → Outcome E A
  panic : Outcome E A

infixl 5 ◌>>=◌ ◌>>◌
-- `?`: the next computation on a value, or an early return.
abbrev pub ◌>>=◌ {ℓ ℓ' κ} :
    {E : Type ℓ} {A : Type ℓ'} {B : Type κ} → Outcome E A → (A → Outcome E B) → Outcome E B
panic >>= next = panic
err e >>= next = err e
ok value >>= next = next value

abbrev pub ◌>>◌ {ℓ ℓ' κ} :
    {E : Type ℓ} {A : Type ℓ'} {B : Type κ} → Outcome E A → Outcome E B → Outcome E B
first >> second = first >>= λ _. second

-- `assert!(b)`.
abbrev pub assert {ℓ} : {E : Type ℓ} → Bool → Outcome E (Unit {0})
assert true = ok tt
assert false = panic

-- `x.ok_or(e)`.
abbrev pub ok_or {ℓ κ} : {E : Type ℓ} {A : Type κ} → Option A → E → Outcome E A
ok_or none e = err e
ok_or (some a) e = ok a

-- `r.map_err(f)`, which `?` applies to an error with `From::from`.
abbrev pub map_err {ℓ ℓ' κ} :
    {E : Type ℓ} {F : Type ℓ'} {A : Type κ} → (E → F) → Outcome E A → Outcome F A
map_err f (ok a) = ok a
map_err f (err e) = err (f e)
map_err f panic = panic

-- `?` behind a call that changes a state.
abbrev pub then_do :
    {H E A B : Type 0} → Outcome E A × H → (A → H → Outcome E B × H) → Outcome E B × H
then_do (ok a, h) next = next a h
then_do (err e, h) next = (err e, h)
then_do (panic, h) next = (panic, h)

-- The computation does not panic.
abbrev pub Safe {ℓ κ} : {E : Type ℓ} {A : Type κ} → Outcome E A → Type 0
Safe (ok a) = Unit
Safe (err e) = Unit
Safe panic = ⊥

pub Safe->>= {ℓ κ κ'} :
    {E : Type ℓ} {A : Type κ} {B : Type κ'} (m : Outcome E A) (f : A → Outcome E B)
    → Safe m
    → ((a : A) → m ≡ ok a → Safe (f a))
    → Safe (m >>= f)
Safe->>= (ok a) f h k = k a refl
Safe->>= (err e) f h k = tt
Safe->>= panic f h k = h

pub Safe-map_err {ℓ ℓ' κ} :
    {E : Type ℓ} {F : Type ℓ'} {A : Type κ} (f : E → F) (m : Outcome E A)
    → Safe m
    → Safe (map_err f m)
Safe-map_err f (ok a) h = tt
Safe-map_err f (err e) h = tt
Safe-map_err f panic h = h

pub Safe-ok_or {ℓ κ} : {E : Type ℓ} {A : Type κ} (o : Option A) (e : E) → Safe (ok_or o e)
Safe-ok_or none e = tt
Safe-ok_or (some a) e = tt

pub Option-cases {ℓ} : {A : Type ℓ} (o : Option A) → (o ≡ none) ⊎ ((a : A) × (o ≡ some a))
Option-cases none = inl refl
Option-cases (some a) = inr (a, refl)

-- Where a chain by `?` succeeds, its front has given a value, and the rest succeeds on it.
pub front_of_ok {ℓ ℓ' κ} :
    {E : Type ℓ} {A : Type ℓ'} {B : Type κ} {result : B} (front : Outcome E A)
    (rest : A → Outcome E B)
    → (front >>= rest) ≡ ok result
    → (value : A) × (front ≡ ok value) × (rest value ≡ ok result)
front_of_ok panic rest done = cc
front_of_ok (err failure) rest done = cc
front_of_ok (ok value) rest done = (value, refl, done)

pub map_err-eq-ok {ℓ ℓ' κ} :
    {E : Type ℓ} {F : Type ℓ'} {A : Type κ} (f : E → F) (m : Outcome E A) {a : A}
    → map_err f m ≡ ok a
    → m ≡ ok a
map_err-eq-ok f (ok a) h = cc
map_err-eq-ok f (err e) h = cc
map_err-eq-ok f panic h = cc
