-- ===== src/Ftdi/Shift/Carried.antt =====
-- The buffer of `shift_chunks` while it stashes TDI bits.
use xvc_rs.Prelude.{
  ℕ, ◌+◌, ◌/◌, ◌%◌, ◌^◌, ◌<◌, ◌≡◌, refl, sym, ap, ◌∙◌, Bool, true, false, ◌&&◌, ◌||◌, ◌==◌, ltb,
  arith, Bytes, AllU8, length, Bool-cases, inl, inr, set,
}
use xvc_rs.Ftdi.Bits.{grow, and_true, and_false}
use xvc_rs.Ftdi.Bits.Vector.{
  at, bit, put, bit-raised, raised-AllU8, length-set, set-AllU8, bit-set-zero,
}
use xvc_rs.Ftdi.Shift.{Run}

-- The loop's variables when `n` bits from `p` on are in `buf`.
abbrev pub running : ℕ → ℕ → ℕ → Bytes → Run
running p left n buf = record {
  left = left;
  place = at (p + n);
  count = n;
  mask = 2 ^ (n % 8);
  cmd_index = n / 8;
  buf = buf;
}

pub run_eq :
    (p left n : ℕ) {m i : ℕ} {buf : Bytes}
    → m ≡ 2 ^ (n % 8)
    → i ≡ n / 8
    → ◌≡◌ {A = Run}
        (record { left = left; place = at (p + n); count = n; mask = m; cmd_index = i; buf = buf })
        (running p left n buf)
run_eq p left n {m} {i} {buf} e f = λ t. record {
  left = left;
  place = at (p + n);
  count = n;
  mask = e t;
  cmd_index = f t;
  buf = buf;
}

-- `buf` has `n` bits of `f` from `p` on, and zeros behind them.
abbrev pub Carries : ℕ → (ℕ → Bool) → ℕ → ℕ → Bytes → Type 0
Carries size f p n buf =
    (length buf ≡ size) × AllU8 buf × ((j : ℕ) → bit buf j ≡ (ltb j n && f (p + j)))

pub Carries-put :
    (size : ℕ) (f : ℕ → Bool) (p n : ℕ) (buf : Bytes)
    → n / 8 < size
    → Carries size f p n buf
    → Carries size f p (n + 1) (put buf n (f (p + n)))
Carries-put size f p n buf h (len, u, bits) = put-bit (f (p + n)) refl
  where
    put-bit : (t : Bool) → f (p + n) ≡ t → Carries size f p (n + 1) (put buf n t)
    put-bit true e = (
      length-set buf _ _ ∙ len,
      raised-AllU8 buf n u,
      λ j.
          bit-raised buf n j u (omega arith)
          ∙ (ap (λ x. j == n || x) (bits j)
              ∙ (ap (λ x. x || (ltb j n && f (p + j))) (sym (and_true (j == n)))
                  ∙ sym (grow f p n j true e))),
    )
    put-bit false e = (
      len,
      u,
      λ j.
          bits j
          ∙ (ap (λ x. x || (ltb j n && f (p + j))) (sym (and_false (j == n)))
              ∙ sym (grow f p n j false e)),
    )

pub Carries-clear :
    (size : ℕ) (f : ℕ → Bool) (p n : ℕ) (buf : Bytes)
    → n / 8 < size
    → n % 8 ≡ 0
    → Carries size f p n buf
    → Carries size f p n (set buf (n / 8) 0)
Carries-clear size f p n buf h whole (len, u, bits) = (
  length-set buf _ _ ∙ len,
  set-AllU8 buf _ 0 u (omega arith),
  λ j. bit-set-zero buf (n / 8) j (omega arith) ∙ elim (Bool-cases (j / 8 == n / 8)) [
    | inl here ↦ (let behind : ltb j n ≡ false = ground arith in rw (here, behind) refl)
    | inr there ↦ rw there (bits j)
  ],
)
