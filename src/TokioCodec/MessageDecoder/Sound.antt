-- ===== src/TokioCodec/MessageDecoder/Sound.antt =====
-- What `MessageDecoder::decode` makes of any buffer.
use native.Mathlib.Decide.{dec_le}
use xvc_rs.Prelude.{
  ℕ, ◌≤◌, ◌<◌, ◌≡◌, length-drop, refl, sym, ap, ◌∙◌, inl, inr, ◌∷◌, ◌++◌, arith, Bytes, All-drop,
  AllU8, err, length, take, drop, from_le_bytes, div_ceil, to_le_bytes-from_le_bytes,
  from_le_bytes-lt, take-append-drop, append_assoc, length-take,
}
use xvc_rs.Errors.{ParseErr, ReadError, read_error}
use xvc_rs.Protocol.{XvcCommand, Message}
use xvc_rs.Codec.Command
use xvc_rs.Codec.Command.{IsForeign, IsOpening, parse, cmd_shift}
use xvc_rs.Codec.SetTck
use xvc_rs.Codec.Shift
use xvc_rs.Rw.Write.{encode, IsWire}
use xvc_rs.TokioCodec.Buffer.{Buffer}
use xvc_rs.TokioCodec.MessageDecoder.{
  decode, decode_payload, decode_command, decode_set_tck, decode_shift, stop,
}
use xvc_rs.TokioCodec.MessageDecoder.View.{
  View, message, foreign, oversized, opening-View, set_tck_short, shift_short, shift_missing,
}
use xvc_rs.TokioCodec.MessageDecoder.RoundTrip.{decode-name, decode-encode}

cut_twice : (k : ℕ) (r : Bytes) → (take k r ++ take k (drop k r)) ++ drop k (drop k r) ≡ r
cut_twice k r =
    append_assoc (take k r) (take k (drop k r)) (drop k (drop k r))
    ∙ (ap (λ t. take k r ++ t) (take-append-drop k (drop k r)) ∙ take-append-drop k r)

module _ (bb : Buffer) (max : ℕ) where
  -- A buffer that is a message and a rest.
  View-encode :
      (s : Bytes) (m : Message) (r : Bytes)
      → s ≡ encode m ++ r
      → IsWire max m
      → View max s (decode bb max s)
  View-encode s m r e w = rw e (rw (decode-encode bb max m r w) (message m r refl w))

  set_tck-View_whole :
      (a b c d : ℕ) (r : Bytes)
      → a < 256
      → b < 256
      → c < 256
      → d < 256
      → let s = Command.name XvcCommand.set_tck ++ (a ∷ b ∷ c ∷ d ∷ r) in
        View max s (decode bb max s)
  unfolding encode
  set_tck-View_whole a b c d r ha hb hc hd =
      View-encode _ (Message.set_tck (from_le_bytes a b c d)) r
        (ap (λ t. Command.name XvcCommand.set_tck ++ (t ++ r))
          (sym (to_le_bytes-from_le_bytes a b c d ha hb hc hd)))
        (from_le_bytes-lt a b c d ha hb hc hd)

  set_tck-View :
      (r : Bytes)
      → AllU8 r
      → View max
          (Command.name XvcCommand.set_tck ++ r)
          (decode bb max (Command.name XvcCommand.set_tck ++ r))
  unfolding decode_payload decode_set_tck stop
  set_tck-View (a ∷ b ∷ c ∷ d ∷ r) (ha, (hb, (hc, (hd, hr)))) =
      set_tck-View_whole a b c d r ha hb hc hd
  set_tck-View r h =
      rw (decode-name bb max XvcCommand.set_tck r)
        (rw (SetTck.parse_short r (omega arith)) (set_tck_short max r h (omega arith)))

  -- A shift with `k` bytes in each vector, all of them there.
  shift-View_whole :
      (a b c d : ℕ) (r : Bytes) (k : ℕ)
      → AllU8 (a ∷ b ∷ c ∷ d ∷ r)
      → div_ceil (from_le_bytes a b c d) 8 ≡ k
      → k ≤ max
      → k ≤ length r
      → k ≤ length (drop k r)
      → View max
          (cmd_shift ++ (a ∷ b ∷ c ∷ d ∷ r))
          (decode bb max (cmd_shift ++ (a ∷ b ∷ c ∷ d ∷ r)))
  unfolding encode
  shift-View_whole a b c d r k (ha, (hb, (hc, (hd, hr)))) e hm h₁ h₂ =
      View-encode _ (Message.shift (from_le_bytes a b c d) (take k r) (take k (drop k r)))
        (drop k (drop k r))
        (ap (λ t. cmd_shift ++ (a ∷ b ∷ c ∷ d ∷ t)) (sym (cut_twice k r))
          ∙ ap (λ t. cmd_shift ++ (t ++ ((take k r ++ take k (drop k r)) ++ drop k (drop k r))))
              (sym (to_le_bytes-from_le_bytes a b c d ha hb hc hd)))
        (
          from_le_bytes-lt a b c d ha hb hc hd,
          length-take k r h₁ ∙ sym e,
          length-take k (drop k r) h₂ ∙ sym e,
          omega (arith, e),
        )

  -- A shift whose vectors, by its first four bytes, are over the limit is refused with the limit and
  -- the size, whatever stands behind these bytes and even if nothing does; the buffer stays as it
  -- is.
  pub decode_oversized :
      (a b c d : ℕ) (r : Bytes)
      → max < div_ceil (from_le_bytes a b c d) 8
      → decode bb max (cmd_shift ++ (a ∷ b ∷ c ∷ d ∷ r)) ≡ (
        err (ReadError.too_many_bytes max (div_ceil (from_le_bytes a b c d) 8)),
        cmd_shift ++ (a ∷ b ∷ c ∷ d ∷ r),
      )
  unfolding decode_payload decode_shift stop read_error
  decode_oversized a b c d r h =
      rw (decode-name bb max XvcCommand.shift (a ∷ b ∷ c ∷ d ∷ r))
        (rw (Shift.parse_over max a b c d r h))

  -- Bytes that begin no command are refused.
  pub decode-IsForeign :
      (s : Bytes)
      → IsForeign s
      → decode bb max s ≡ (err (read_error (ParseErr.invalid_command s)), s)
  unfolding decode decode_command stop
  decode-IsForeign s f = rw (Command.parse-IsForeign s f)

  shift-View_parts :
      (a b c d : ℕ) (r : Bytes)
      → AllU8 (a ∷ b ∷ c ∷ d ∷ r)
      → View max
          (cmd_shift ++ (a ∷ b ∷ c ∷ d ∷ r))
          (decode bb max (cmd_shift ++ (a ∷ b ∷ c ∷ d ∷ r)))
  unfolding decode_payload decode_shift stop read_error
  shift-View_parts a b c d r h =
      let k = div_ceil (from_le_bytes a b c d) 8 in
      let at_payload = decode-name bb max XvcCommand.shift (a ∷ b ∷ c ∷ d ∷ r) in
      elim (dec_le k max) [
        | no over ↦
            rw (decode_oversized a b c d r (omega arith)) (oversized a b c d r refl (omega arith))
        | yes fits ↦ elim (dec_le k (length r)) [
          | no short ↦ rw at_payload (
              rw (Shift.parse_no_tms max a b c d r fits (omega arith))
                (shift_missing max a b c d r h (omega arith)))
          | yes long ↦ elim (dec_le k (length (drop k r))) [
            | no short ↦ rw at_payload (
                rw (Shift.parse_no_tdi max a b c d r fits long (omega arith))
                  (shift_missing max a b c d r h (omega (arith, length-drop k r))))
            | yes whole ↦ shift-View_whole a b c d r k h refl fits long whole
          ]
        ]
      ]

  shift-View :
      (r : Bytes)
      → AllU8 r
      → View max
          (Command.name XvcCommand.shift ++ r)
          (decode bb max (Command.name XvcCommand.shift ++ r))
  unfolding decode_payload decode_shift stop
  shift-View (a ∷ b ∷ c ∷ d ∷ r) h = shift-View_parts a b c d r h
  shift-View r h =
      rw (decode-name bb max XvcCommand.shift r)
        (rw (Shift.parse_short max r (omega arith)) (shift_short max r h (omega arith)))

  name-View :
      (c : XvcCommand) (r : Bytes)
      → AllU8 (Command.name c ++ r)
      → View max (Command.name c ++ r) (decode bb max (Command.name c ++ r))
  unfolding encode
  name-View XvcCommand.get_info r h = View-encode _ Message.get_info r refl tt
  name-View XvcCommand.set_tck r h =
      set_tck-View r (All-drop (λ b. b < 256) 7 (Command.name XvcCommand.set_tck ++ r) h)
  name-View XvcCommand.shift r h =
      shift-View r (All-drop (λ b. b < 256) 6 (Command.name XvcCommand.shift ++ r) h)

  -- On a buffer of bytes below 256, `decode` does one of four things: it takes a message that fits
  -- the protocol and the limit off the buffer's front; it waits for more bytes, and then the buffer
  -- is a proper part of a message that fits the protocol under some limit; it refuses a buffer that
  -- begins no command; or it refuses a shift whose vectors are over the limit. But for the first it
  -- leaves the buffer as it is, and it never panics.
  pub decode-View : (s : Bytes) → AllU8 s → View max s (decode bb max s)
  unfolding decode decode_command stop
  decode-View s h = elim (Command.parse-cases s) [
    | inl (c, r, e) ↦ rw e (name-View c r (rw e at h))
    | inr (inl (e, o)) ↦ rw e (opening-View max s e o)
    | inr (inr f) ↦ rw (decode-IsForeign s f) (foreign f)
  ]
