-- ===== src/Codec/Shift.antt =====
-- `Shift` and its parsers, of xvc-protocol/src/codec.rs.
use xvc_rs.Prelude.{
  ℕ, ◌≤◌, ◌<◌, ◌^◌, ◌≡◌, ◌∷◌, ◌++◌, to_le_bytes, from_le_bytes-to_le_bytes, take_left, drop_left,
  length-append, arith, Bytes, ok, err, length, take, drop, from_le_bytes, div_ceil, ltb,
  if◌then◌else◌, le→ltb, lt→ltb,
}
use xvc_rs.Errors.{incomplete, too_many_bytes}
use xvc_rs.Codec.Parser.{Parser, commit, ◌>>=◌, pure}
use xvc_rs.Codec.SliceReader.{
  remaining, get_u32_le, get_u32_le_lem, copy_to_boxed_slice, copy_to_boxed_slice_lem,
}

pub record Shift : Type 0 where
  pub num_bits : ℕ
  pub tdi : Bytes
  pub tms : Bytes

abbrev pub into_tms_tdi : Shift → Bytes × Bytes
into_tms_tdi s = (s.tms, s.tdi)

unfoldable pub parse_num_bits : Parser ℕ
parse_num_bits buf =
    if ltb (remaining buf) 4 then (err incomplete, buf) else commit buf (get_u32_le buf)

unfoldable pub parse_tdi_or_tms : ℕ → ℕ → Parser Bytes
parse_tdi_or_tms num_bytes max_len buf =
    if ltb max_len num_bytes
    then (err (too_many_bytes max_len num_bytes), buf)
    else if ltb (remaining buf) num_bytes
    then (err incomplete, buf)
    else commit buf (copy_to_boxed_slice num_bytes buf)

unfoldable pub parse : ℕ → Parser Shift
parse max_len = do
  num_bits ← parse_num_bits
  let num_bytes = div_ceil num_bits 8
  tms ← parse_tdi_or_tms num_bytes max_len
  tdi ← parse_tdi_or_tms num_bytes max_len
  pure (record { num_bits = num_bits; tdi = tdi; tms = tms })

pub parse_num_bits_lem :
    (a b c d : ℕ) (r : Bytes) → parse_num_bits (a ∷ b ∷ c ∷ d ∷ r) ≡ (ok (from_le_bytes a b c d), r)
unfolding parse_num_bits
parse_num_bits_lem a b c d r =
    rw (le→ltb (length (a ∷ b ∷ c ∷ d ∷ r)) 4 (omega arith), get_u32_le_lem a b c d r)

pub parse_num_bits_short : (s : Bytes) → length s < 4 → parse_num_bits s ≡ (err incomplete, s)
unfolding parse_num_bits
parse_num_bits_short s h = rw (lt→ltb (length s) 4 h)

module _ (k max : ℕ) (s : Bytes) where
  pub parse_tdi_or_tms_lem :
      k ≤ max → k ≤ length s → parse_tdi_or_tms k max s ≡ (ok (take k s), drop k s)
  unfolding parse_tdi_or_tms
  parse_tdi_or_tms_lem h g =
      rw (le→ltb max k h, le→ltb (length s) k g, copy_to_boxed_slice_lem k s g)

  pub parse_tdi_or_tms_short :
      k ≤ max → length s < k → parse_tdi_or_tms k max s ≡ (err incomplete, s)
  unfolding parse_tdi_or_tms
  parse_tdi_or_tms_short h g = rw (le→ltb max k h, lt→ltb (length s) k g)

  pub parse_tdi_or_tms_over : max < k → parse_tdi_or_tms k max s ≡ (err (too_many_bytes max k), s)
  unfolding parse_tdi_or_tms
  parse_tdi_or_tms_over h = rw (lt→ltb max k h)

pub parse_short : (max : ℕ) (s : Bytes) → length s < 4 → parse max s ≡ (err incomplete, s)
unfolding parse
parse_short max s h = rw (parse_num_bits_short s h)

-- The four ways in which a shift goes on behind its bit count.
module _ (max a b c d : ℕ) (r : Bytes) where
  abbrev bits : ℕ
  bits = from_le_bytes a b c d

  pub parse_over :
      max < div_ceil bits 8
      → parse max (a ∷ b ∷ c ∷ d ∷ r) ≡ (err (too_many_bytes max (div_ceil bits 8)), r)
  unfolding parse
  parse_over h = rw (parse_num_bits_lem a b c d r, parse_tdi_or_tms_over (div_ceil bits 8) max r h)

  pub parse_no_tms :
      div_ceil bits 8 ≤ max
      → length r < div_ceil bits 8
      → parse max (a ∷ b ∷ c ∷ d ∷ r) ≡ (err incomplete, r)
  unfolding parse
  parse_no_tms h g =
      rw (parse_num_bits_lem a b c d r, parse_tdi_or_tms_short (div_ceil bits 8) max r h g)

  pub parse_no_tdi :
      div_ceil bits 8 ≤ max
      → div_ceil bits 8 ≤ length r
      → length (drop (div_ceil bits 8) r) < div_ceil bits 8
      → parse max (a ∷ b ∷ c ∷ d ∷ r) ≡ (err incomplete, drop (div_ceil bits 8) r)
  unfolding parse
  parse_no_tdi h g f = rw (
    parse_num_bits_lem a b c d r,
    parse_tdi_or_tms_lem (div_ceil bits 8) max r h g,
    parse_tdi_or_tms_short (div_ceil bits 8) max (drop (div_ceil bits 8) r) h f,
  )

  pub parse_whole :
      div_ceil bits 8 ≤ max
      → div_ceil bits 8 ≤ length r
      → div_ceil bits 8 ≤ length (drop (div_ceil bits 8) r)
      → parse max (a ∷ b ∷ c ∷ d ∷ r) ≡ (
        ok (record {
          num_bits = bits;
          tdi = take (div_ceil bits 8) (drop (div_ceil bits 8) r);
          tms = take (div_ceil bits 8) r;
        }),
        drop (div_ceil bits 8) (drop (div_ceil bits 8) r),
      )
  unfolding parse
  parse_whole h g f = rw (
    parse_num_bits_lem a b c d r,
    parse_tdi_or_tms_lem (div_ceil bits 8) max r h g,
    parse_tdi_or_tms_lem (div_ceil bits 8) max (drop (div_ceil bits 8) r) h f,
  )

-- Reading what was written.
parse_num_bits-to_le_bytes :
    (n : ℕ) (r : Bytes) → n < 2 ^ 32 → parse_num_bits (to_le_bytes n ++ r) ≡ (ok n, r)
parse_num_bits-to_le_bytes n r h =
    rw (parse_num_bits_lem _ _ _ _ r) (rw (from_le_bytes-to_le_bytes n h))

parse_tdi_or_tms-append :
    (k max : ℕ) (v r : Bytes) → length v ≡ k → k ≤ max → parse_tdi_or_tms k max (v ++ r) ≡ (ok v, r)
parse_tdi_or_tms-append k max v r e h =
    rw (parse_tdi_or_tms_lem k max (v ++ r) h (omega (arith, length-append {0} v r)))
      (rw (← e) (rw (take_left v r, drop_left v r)))

pub parse-to_le_bytes :
    (max n : ℕ) (tms tdi r : Bytes)
    → n < 2 ^ 32
    → length tms ≡ div_ceil n 8
    → length tdi ≡ div_ceil n 8
    → div_ceil n 8 ≤ max
    → parse max (to_le_bytes n ++ (tms ++ (tdi ++ r)))
      ≡ (ok (record { num_bits = n; tdi = tdi; tms = tms }), r)
unfolding parse
parse-to_le_bytes max n tms tdi r h hs hi hm = rw (
  parse_num_bits-to_le_bytes n (tms ++ (tdi ++ r)) h,
  parse_tdi_or_tms-append (div_ceil n 8) max tms (tdi ++ r) hs hm,
  parse_tdi_or_tms-append (div_ceil n 8) max tdi r hi hm,
)
