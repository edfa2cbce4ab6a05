-- ===== src/DebugBridge/KernelDriver/Backend.antt =====
-- The sizes of the vectors in the kernel driver's `shift_data`, and its `XvcServer`.
use native.Mathlib.Decide.{ℕ_discrete}
use xvc_rs.Prelude.{ℕ, ◌≡◌, refl, Bytes, length, ok, div_ceil, ==_same, ==_ne}
use xvc_rs.Errors.{IoError}
use xvc_rs.Server.{XvcServer}
use xvc_rs.DebugBridge.KernelDriver.{Driver, shift_data}

module _ {H : Type 0} (driver : Driver H) where
  pub length-driver_shift :
      (n : ℕ) (tms tdi tdo : Bytes) (h : H)
      → length (shift_data driver n tms tdi tdo h).1 ≡ length tdo
  unfolding shift_data
  length-driver_shift n tms tdi tdo h = elim (ℕ_discrete (length tms) (div_ceil n 8)) [
    | no a ↦ rw (==_ne _ _ a) refl
    | yes a ↦ elim (ℕ_discrete (length tdi) (div_ceil n 8)) [
      | no b ↦ rw (==_same _ _ a, ==_ne _ _ b) refl
      | yes b ↦ elim (ℕ_discrete (length tdo) (div_ceil n 8)) [
        | no c ↦ rw (==_same _ _ a, ==_same _ _ b, ==_ne _ _ c) refl
        | yes c ↦ rw (==_same _ _ a, ==_same _ _ b, ==_same _ _ c) (driver.length-xvc_do_ioc _ h)
      ]
    ]
  ]

  -- `impl XvcServer` of the kernel driver's backend.
  unfoldable pub kernel_backend : XvcServer H IoError
  kernel_backend = record {
    set_tck = λ period_ns h. (ok period_ns, h);
    shift = shift_data driver;
    length-shift = length-driver_shift;
  }
