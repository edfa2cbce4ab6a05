-- ===== src/Codec/SliceReader.antt =====
-- `SliceReader` of xvc-protocol/src/codec.rs, a cursor over a byte slice.
use xvc_rs.Prelude.{
  ℕ, ◌≤◌, ◌≡◌, ◌∷◌, arith, Bytes, ok, ◌>>=◌, slice_from, slice_to, index, length, take, drop,
  from_le_bytes, le→leb,
}
use xvc_rs.Codec.Parser.{ParseResult}

abbrev pub remaining : Bytes → ℕ
remaining r = length r

unfoldable pub advance : ℕ → Bytes → ParseResult Bytes
advance n r = slice_from n r

unfoldable pub get_u32_le : Bytes → ParseResult (ℕ × Bytes)
unfolding advance
get_u32_le r = do
  a ← index r 0
  b ← index r 1
  c ← index r 2
  d ← index r 3
  r' ← advance 4 r
  ok (from_le_bytes a b c d, r')

unfoldable pub copy_to_boxed_slice : ℕ → Bytes → ParseResult (Bytes × Bytes)
unfolding advance
copy_to_boxed_slice n r = do out ← slice_to n r; r' ← advance n r; ok (out, r')

pub get_u32_le_lem :
    (a b c d : ℕ) (r : Bytes) → get_u32_le (a ∷ b ∷ c ∷ d ∷ r) ≡ ok (from_le_bytes a b c d, r)
unfolding get_u32_le
get_u32_le_lem a b c d r = rw (le→leb 4 (length (a ∷ b ∷ c ∷ d ∷ r)) (omega arith))

pub copy_to_boxed_slice_lem :
    (n : ℕ) (r : Bytes) → n ≤ length r → copy_to_boxed_slice n r ≡ ok (take n r, drop n r)
unfolding copy_to_boxed_slice
copy_to_boxed_slice_lem n r h = rw (le→leb n (length r) h)
