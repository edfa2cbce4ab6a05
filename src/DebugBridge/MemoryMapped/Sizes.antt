-- ===== src/DebugBridge/MemoryMapped/Sizes.antt =====
-- The sizes of the vectors in `shift_data`, and its backend (xvc-server-debugbridge/src/backends/uio.rs
-- and devmem.rs, whose `XvcServer` is the same).
use mathlib.Core.Path.{subst}
use native.Mathlib.Decide.{ℕ_discrete}
use native.Mathlib.Nat.{add-zero}
use xvc_rs.Prelude.{
  ℕ, suc, ◌+◌, ◌-◌, ◌≤◌, ◌≡◌, ◌≢◌, ◌⊎◌, inl, inr, refl, sym, ◌∙◌, ap, [], ◌∷◌, append-nil, arith,
  Bytes, Outcome, ok, err, panic, length, codes, take, drop, length-append, length-take,
  length-drop, div_ceil, div_ceil-eight, to_le_bytes, ==_same, ==_ne, Safe,
}
use xvc_rs.Errors.{IoError}
use xvc_rs.Server.{XvcServer}
use xvc_rs.DebugBridge.MemoryMapped.{Registers, Shifted, exchange, shift_data, io_other}
use xvc_rs.DebugBridge.MemoryMapped.Words.{
  Played, onto, heard, play, place, rounds, shift_data-rounds,
}

drop_full : (out tdo : Bytes) → length tdo ≡ length out → drop (length out) tdo ≡ []
drop_full [] [] h = refl
drop_full [] (x ∷ tdo) h = absurd (omega arith)
drop_full (y ∷ out) [] h = refl
drop_full (y ∷ out) (x ∷ tdo) h = drop_full out tdo (omega arith)

four_more : (n : ℕ) → 4 + n ≡ suc (suc (suc (suc n)))
four_more n = omega arith

module _ {H : Type 0} (mem : Registers H) where
  -- `size` bytes after a success, no more after a failure, and no panic.
  abbrev pub Filled : ℕ → Played mem → Type 0
  Filled size (ok _, out, h) = length out ≡ size
  Filled size (err e, out, h) = length out ≤ size
  Filled size (panic, out, h) = ⊥

  Filled-onto :
      (size : ℕ) (read : Bytes) (p : Played mem)
      → Filled size p
      → Filled (length read + size) (onto mem read p)
  Filled-onto size read (ok _, out, h) f = length-append read out ∙ ap (λ n. length read + n) f
  Filled-onto size read (err e, out, h) f = omega (arith, length-append {0} read out)
  Filled-onto size read (panic, out, h) f = f

  exchange-ne-panic : (n tms tdi : ℕ) (h : H) → Safe (exchange mem n tms tdi h).0
  unfolding exchange
  exchange-ne-panic n tms tdi h = ground arith

  Filled-heard :
      (n size : ℕ) (x : Outcome IoError ℕ × H) (rest : H → Played mem)
      → n ≤ 4
      → Safe x.0
      → ((h : H) → Filled size (rest h))
      → Filled (n + size) (heard mem n x rest)
  Filled-heard n size (ok word, h) rest four safe k =
      let full : length (take n (to_le_bytes word)) ≡ n =
        length-take n (to_le_bytes word) (omega arith) in
      rw full at (Filled-onto size (take n (to_le_bytes word)) (rest h) (k h))
  Filled-heard n size (err e, h) rest four safe k = omega arith
  Filled-heard n size (panic, h) rest four safe k = safe

  Filled-eq : {m size : ℕ} (p : Played mem) → m ≡ size → Filled m p → Filled size p
  Filled-eq p e f = subst (λ s. Filled s p) e f

  last-Filled :
      (n size tms tdi : ℕ) (h : H)
      → div_ceil n 8 ≡ size
      → size ≤ 4
      → Filled size (play mem ((n, tms, tdi) ∷ []) h)
  unfolding play
  last-Filled n size tms tdi h e four = rw e (
      Filled-eq _ (add-zero size) (
        Filled-heard size 0 (exchange mem n tms tdi h) _ four (exchange-ne-panic n tms tdi h)
          (λ _. refl)))

  pub rounds-Filled :
      (n : ℕ) (tms tdi : Bytes) (h : H)
      → div_ceil n 8 ≡ length tms
      → length tdi ≡ length tms
      → Filled (length tms) (play mem (rounds n tms tdi) h)
  unfolding rounds play
  rounds-Filled n [] [] h e i = refl
  rounds-Filled n (a ∷ []) (a' ∷ []) h e i = last-Filled n 1 _ _ h e (omega arith)
  rounds-Filled n (a ∷ b ∷ []) (a' ∷ b' ∷ []) h e i = last-Filled n 2 _ _ h e (omega arith)
  rounds-Filled n (a ∷ b ∷ c ∷ []) (a' ∷ b' ∷ c' ∷ []) h e i = last-Filled n 3 _ _ h e (omega arith)
  rounds-Filled n (a ∷ b ∷ c ∷ d ∷ []) (a' ∷ b' ∷ c' ∷ d' ∷ []) h e i =
      last-Filled n 4 _ _ h e (omega arith)
  rounds-Filled n (a ∷ b ∷ c ∷ d ∷ x ∷ tms) (a' ∷ b' ∷ c' ∷ d' ∷ x' ∷ tdi) h e i =
      let left : div_ceil (n - 32) 8 ≡ length (x ∷ tms) =
        omega (arith, div_ceil-eight (n - 32), div_ceil-eight n) in
      Filled-eq _ (four_more (length (x ∷ tms))) (
        Filled-heard 4 (length (x ∷ tms)) (exchange mem 32 _ _ h) _ (omega arith)
          (exchange-ne-panic 32 _ _ h)
          (λ h'. rounds-Filled (n - 32) (x ∷ tms) (x' ∷ tdi) h' left (omega arith)))
  rounds-Filled n tms tdi h e i = absurd (omega arith)

  -- Where the TMS, the TDI or the TDO vector has not one byte for each eight bits begun,
  -- `shift_data` of the memory-mapped backend fails, leaves `tdo` as it is and touches no register.
  pub shift_data_rejects :
      (n : ℕ) (tms tdi tdo : Bytes) (h : H)
      → (length tms ≢ div_ceil n 8) ⊎ ((length tdi ≢ div_ceil n 8) ⊎ (length tdo ≢ div_ceil n 8))
      → (e : IoError) × (shift_data mem n tms tdi tdo h ≡ (err e, tdo, h))
  unfolding shift_data
  shift_data_rejects n tms tdi tdo h wrong = elim (ℕ_discrete (length tms) (div_ceil n 8)) [
    | no a ↦ (io_other (codes "TMS has incorrect size"), rw (==_ne _ _ a))
    | yes a ↦ elim (ℕ_discrete (length tdi) (div_ceil n 8)) [
      | no b ↦ (io_other (codes "TDI has incorrect size"), rw (==_same _ _ a, ==_ne _ _ b))
      | yes b ↦ elim (ℕ_discrete (length tdo) (div_ceil n 8)) [
        | no c ↦ (
          io_other (codes "TDO has incorrect size"),
          rw (==_same _ _ a, ==_same _ _ b, ==_ne _ _ c),
        )
        | yes c ↦ absurd (omega arith)
      ]
    ]
  ]

  sizes_fit_or_not :
      (n : ℕ) (tms tdi tdo : Bytes)
      → ((length tms ≡ div_ceil n 8) × (length tdi ≡ div_ceil n 8) × (length tdo ≡ div_ceil n 8))
        ⊎ ((length tms ≢ div_ceil n 8)
            ⊎ ((length tdi ≢ div_ceil n 8) ⊎ (length tdo ≢ div_ceil n 8)))
  sizes_fit_or_not n tms tdi tdo = elim (ℕ_discrete (length tms) (div_ceil n 8)) [
    | no a ↦ inr (inl a)
    | yes a ↦ elim (ℕ_discrete (length tdi) (div_ceil n 8)) [
      | no b ↦ inr (inr (inl b))
      | yes b ↦ elim (ℕ_discrete (length tdo) (div_ceil n 8)) [
        | no c ↦ inr (inr (inr c))
        | yes c ↦ inl (a, b, c)
      ]
    ]
  ]

  -- What `shift_data` leaves in `tdo`: what was there, or what playing the words puts there.
  pub shift_data-tdo :
      (n : ℕ) (tms tdi tdo : Bytes) (h : H)
      → ((shift_data mem n tms tdi tdo h).1 ≡ tdo)
        ⊎ (((shift_data mem n tms tdi tdo h).1
              ≡ (place mem [] tdo (play mem (rounds n tms tdi) h)).1)
            × Filled (length tdo) (play mem (rounds n tms tdi) h))
  shift_data-tdo n tms tdi tdo h = elim (sizes_fit_or_not n tms tdi tdo) [
    | inl (a, b, c) ↦ inr (
      ap (λ (t : Shifted mem). t.1) (shift_data-rounds mem n tms tdi tdo h a b c),
      Filled-eq _ (a ∙ sym c) (rounds-Filled n tms tdi h (sym a) (b ∙ sym a)),
    )
    | inr wrong ↦ inl (ap (λ (t : Shifted mem). t.1) (shift_data_rejects n tms tdi tdo h wrong).1)
  ]

  length-place :
      (tdo : Bytes) (p : Played mem)
      → Filled (length tdo) p
      → length (place mem [] tdo p).1 ≡ length tdo
  length-place tdo (ok _, out, h) f =
      omega (arith, length-append {0} out (drop (length out) tdo), length-drop {0} (length out) tdo)
  length-place tdo (err e, out, h) f =
      omega (arith, length-append {0} out (drop (length out) tdo), length-drop {0} (length out) tdo)
  length-place tdo (panic, out, h) f = absurd f

  -- For all vectors, of the right size or not, and for all answers of the bridge, `shift_data` of
  -- the memory-mapped backend leaves `tdo` as long as it was.
  pub length-shift_data :
      (n : ℕ) (tms tdi tdo : Bytes) (h : H) → length (shift_data mem n tms tdi tdo h).1 ≡ length tdo
  length-shift_data n tms tdi tdo h = elim (shift_data-tdo n tms tdi tdo h) [
    | inl same ↦ ap length same
    | inr (placed, f) ↦ ap length placed ∙ length-place tdo _ f
  ]

  -- If the three vectors have one byte for each eight bits begun, and playing the words of the shift
  -- succeeds, then `shift_data` of the memory-mapped backend succeeds, `tdo` is exactly the bytes
  -- that the words brought, and the bridge is as playing the words leaves it.
  pub shift_data_fills :
      (n : ℕ) (tms tdi tdo : Bytes) (h h' : H) (out : Bytes)
      → length tms ≡ div_ceil n 8
      → length tdi ≡ div_ceil n 8
      → length tdo ≡ div_ceil n 8
      → play mem (rounds n tms tdi) h ≡ (ok tt, out, h')
      → shift_data mem n tms tdi tdo h ≡ (ok tt, out, h')
  shift_data_fills n tms tdi tdo h h' out a b c p =
      let full : length out ≡ length tms =
        rw p at (rounds-Filled n tms tdi h (sym a) (b ∙ sym a)) in
      shift_data-rounds mem n tms tdi tdo h a b c
      ∙ rw p (rw (drop_full out tdo (omega arith)) (rw (append-nil out)))

  -- `impl XvcServer for UioDriverBackend`
  abbrev pub uio_backend : XvcServer H IoError
  uio_backend = record {
    set_tck = λ period_ns h. (ok period_ns, h);
    shift = shift_data mem;
    length-shift = length-shift_data;
  }

  -- `impl XvcServer for DevMemBackend`
  abbrev pub dev_mem_backend : XvcServer H IoError
  dev_mem_backend = record {
    set_tck = λ period_ns h. (ok period_ns, h);
    shift = shift_data mem;
    length-shift = length-shift_data;
  }
