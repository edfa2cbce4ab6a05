-- ===== src/DebugBridge/Properties.antt =====
-- `XvcProperties` of xvc-server-debugbridge/src/backends/kernel_driver.rs.
use mathlib.Core.Option
use xvc_rs.Prelude.{
  ℕ, ◌==◌, if◌then◌else◌, Option, some, none, [], ◌∷◌, Bytes, Outcome, ok, err, panic,
}
use xvc_rs.Errors.{IoError}
use xvc_rs.Text.{Utf8Error, from_utf8}

pub record XvcProperties : Type 0 where
  pub debug_bridge_base_addr : ℕ
  pub debug_bridge_size : ℕ
  pub debug_bridge_compat_string : Bytes

-- The C string at the front of an array of characters, if there is a NUL.
unfoldable pub c_str : Bytes → Option Bytes
c_str [] = none
c_str (c ∷ cs) =
    let rest = Option.map (λ text. c ∷ text) (c_str cs) in if c == 0 then some [] else rest

-- `to_str().expect(…)`
unfoldable pub expect_text : Outcome Utf8Error Bytes → Outcome IoError Bytes
expect_text (ok text) = ok text
expect_text (err e) = panic
expect_text panic = panic

-- An array without a NUL, behind whose end `CStr::from_ptr` would read on, counts as a panic.
unfoldable pub compat_string : XvcProperties → Outcome IoError Bytes
unfolding c_str expect_text
compat_string properties = elim (c_str properties.debug_bridge_compat_string) [
  | none ↦ panic
  | some text ↦ expect_text (from_utf8 text)
]
