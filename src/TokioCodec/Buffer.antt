-- ===== src/TokioCodec/Buffer.antt =====
-- What the decoders use of the `bytes` crate. A `BytesMut` is its contents.
use xvc_rs.Prelude.{ℕ, ◌≤◌, ◌≡◌, Bytes, length, drop, refl}

-- `Buf::advance`: within the contents it drops bytes from the front.
pub record Buffer : Type 0 where
  pub advance : ℕ → Bytes → Bytes
  pub advance-drop : (n : ℕ) (s : Bytes) → n ≤ length s → advance n s ≡ drop n s

-- A buffer as a plain list.
abbrev pub list_buffer : Buffer
list_buffer = record { advance = λ n s. drop n s; advance-drop = λ n s h. refl }
