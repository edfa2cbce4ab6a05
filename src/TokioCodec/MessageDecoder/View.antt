-- ===== src/TokioCodec/MessageDecoder/View.antt =====
-- The results that `MessageDecoder::decode` may have on a buffer, and the buffers that wait for more bytes.
use mathlib.Core.List.{cons-ne-nil}
use xvc_rs.Prelude.{
  ℕ, ◌<◌, ◌≡◌, ◌≢◌, ◌+◌, ◌-◌, [], append-nil, eq-nil_left, replicate, length-replicate,
  length-append, length-drop, to_le_bytes, starts_with→append, refl, ap, ◌∙◌, none, some, ◌∷◌, ◌++◌,
  arith, Bytes, AllU8, ok, err, length, take, drop, from_le_bytes, div_ceil,
  to_le_bytes-from_le_bytes, from_le_bytes-lt, take-append-drop, append_assoc, length-take,
}
use xvc_rs.Errors.{ParseErr, incomplete, ReadError, read_error}
use xvc_rs.Protocol.{XvcCommand, Message}
use xvc_rs.Codec.Command
use xvc_rs.Codec.Command.{IsForeign, IsOpening, parse, cmd_shift}
use xvc_rs.Rw.Write.{encode, IsWire}
use xvc_rs.TokioCodec.MessageDecoder.{Decoded}

-- The four results of `decode` on the buffer `s`: a message off its front, a wait for more bytes
-- and two refusals. All but the first leave the buffer as it is.
pub data View (max : ℕ) (s : Bytes) : Decoded Message → Type 0 where
  message :
      (m : Message) (r : Bytes) → s ≡ encode m ++ r → IsWire max m → View max s (ok (some m), r)
  waiting :
      (limit : ℕ) (m : Message) (q : Bytes)
      → IsWire limit m
      → encode m ≡ s ++ q
      → q ≢ []
      → View max s (ok none, s)
  foreign : IsForeign s → View max s (err (read_error (ParseErr.invalid_command s)), s)
  oversized :
      (a b c d : ℕ) (r : Bytes)
      → s ≡ cmd_shift ++ (a ∷ b ∷ c ∷ d ∷ r)
      → max < div_ceil (from_le_bytes a b c d) 8
      → View max s (err (ReadError.too_many_bytes max (div_ceil (from_le_bytes a b c d) 8)), s)

-- A message that begins with a command.
sample : XvcCommand → Message
sample XvcCommand.get_info = Message.get_info
sample XvcCommand.set_tck = Message.set_tck 0
sample XvcCommand.shift = Message.shift 0 [] []

-- What stands behind the command in it.
tail : XvcCommand → Bytes
tail XvcCommand.get_info = []
tail XvcCommand.set_tck = to_le_bytes 0
tail XvcCommand.shift = to_le_bytes 0

encode-sample : (c : XvcCommand) → encode (sample c) ≡ Command.name c ++ tail c
unfolding encode sample tail
encode-sample XvcCommand.get_info = refl
encode-sample XvcCommand.set_tck = refl
encode-sample XvcCommand.shift = refl

sample-IsWire : (c : XvcCommand) → IsWire 0 (sample c)
unfolding sample
sample-IsWire XvcCommand.get_info = tt
sample-IsWire XvcCommand.set_tck = omega arith
sample-IsWire XvcCommand.shift = (omega arith, refl, refl, omega arith)

module _ (max : ℕ) where
  pub opening-View :
      (s : Bytes) → parse s ≡ (err incomplete, s) → IsOpening s → View max s (ok none, s)
  opening-View s e (c, h) =
      let q = drop (length s) (Command.name c) in
      let cut : Command.name c ≡ s ++ q = starts_with→append (Command.name c) s h in
      let behind : q ≢ [] = λ none_left. cc (
        e,
        Command.parse-name c [],
        ap parse
            (append-nil (Command.name c) ∙ (cut ∙ (ap (λ t. s ++ t) none_left ∙ append-nil s))),
      ) in
      waiting 0 (sample c) (q ++ tail c) (sample-IsWire c)
        (encode-sample c ∙ (ap (λ t. t ++ tail c) cut ∙ append_assoc s q (tail c)))
        (λ none_left. behind (eq-nil_left q (tail c) none_left))

  set_tck_waits :
      (a b c d : ℕ) (r q : Bytes)
      → AllU8 (a ∷ b ∷ c ∷ d ∷ [])
      → a ∷ b ∷ c ∷ d ∷ [] ≡ r ++ q
      → q ≢ []
      → View max
          (Command.name XvcCommand.set_tck ++ r)
          (ok none, Command.name XvcCommand.set_tck ++ r)
  unfolding encode
  set_tck_waits a b c d r q (ha, (hb, (hc, (hd, _)))) e ne =
      waiting 0 (Message.set_tck (from_le_bytes a b c d)) q (from_le_bytes-lt a b c d ha hb hc hd)
        (ap (λ t. Command.name XvcCommand.set_tck ++ t)
          (to_le_bytes-from_le_bytes a b c d ha hb hc hd ∙ e))
        ne

  -- `p` are the vectors, of which a part is missing.
  shift_waits :
      (a b c d : ℕ) (p r q : Bytes)
      → AllU8 (a ∷ b ∷ c ∷ d ∷ [])
      → length p ≡ div_ceil (from_le_bytes a b c d) 8 + div_ceil (from_le_bytes a b c d) 8
      → a ∷ b ∷ c ∷ d ∷ p ≡ r ++ q
      → q ≢ []
      → View max (cmd_shift ++ r) (ok none, cmd_shift ++ r)
  unfolding encode
  shift_waits a b c d p r q (ha, (hb, (hc, (hd, _)))) l e ne =
      let k = div_ceil (from_le_bytes a b c d) 8 in
      waiting k (Message.shift (from_le_bytes a b c d) (take k p) (drop k p)) q
        (
          from_le_bytes-lt a b c d ha hb hc hd,
          length-take k p (omega (arith, l)),
          length-drop k p ∙ omega (arith, l),
          omega arith,
        )
        (ap (λ t. cmd_shift ++ t)
          (ap (λ t. t ++ (take k p ++ drop k p)) (to_le_bytes-from_le_bytes a b c d ha hb hc hd)
            ∙ (ap (λ t. a ∷ b ∷ c ∷ d ∷ t) (take-append-drop k p) ∙ e)))
        ne

  pub set_tck_short :
      (r : Bytes)
      → AllU8 r
      → length r < 4
      → View max
          (Command.name XvcCommand.set_tck ++ r)
          (ok none, Command.name XvcCommand.set_tck ++ r)
  set_tck_short [] h lt =
      set_tck_waits 0 0 0 0 [] (0 ∷ 0 ∷ 0 ∷ 0 ∷ []) (omega arith) refl (cons-ne-nil _ _)
  set_tck_short (a ∷ []) h lt =
      set_tck_waits a 0 0 0 (a ∷ []) (0 ∷ 0 ∷ 0 ∷ []) (omega arith) refl (cons-ne-nil _ _)
  set_tck_short (a ∷ b ∷ []) h lt =
      set_tck_waits a b 0 0 (a ∷ b ∷ []) (0 ∷ 0 ∷ []) (omega arith) refl (cons-ne-nil _ _)
  set_tck_short (a ∷ b ∷ c ∷ []) h lt =
      set_tck_waits a b c 0 (a ∷ b ∷ c ∷ []) (0 ∷ []) (omega arith) refl (cons-ne-nil _ _)
  set_tck_short (a ∷ b ∷ c ∷ d ∷ r) h lt = absurd (omega arith)

  -- The vectors of a shift, all zeros.
  zeros : ℕ → ℕ → ℕ → ℕ → Bytes
  zeros a b c d =
      replicate (div_ceil (from_le_bytes a b c d) 8 + div_ceil (from_le_bytes a b c d) 8) 0

  length-zeros :
      (a b c d : ℕ)
      → length (zeros a b c d)
        ≡ div_ceil (from_le_bytes a b c d) 8 + div_ceil (from_le_bytes a b c d) 8
  unfolding zeros
  length-zeros a b c d = length-replicate {A = ℕ} _ 0

  pub shift_short :
      (r : Bytes) → AllU8 r → length r < 4 → View max (cmd_shift ++ r) (ok none, cmd_shift ++ r)
  unfolding zeros
  shift_short [] h lt =
      shift_waits 0 0 0 0 (zeros 0 0 0 0) [] (0 ∷ 0 ∷ 0 ∷ 0 ∷ zeros 0 0 0 0) (omega arith)
        (length-zeros 0 0 0 0) refl (cons-ne-nil _ _)
  shift_short (a ∷ []) h lt =
      shift_waits a 0 0 0 (zeros a 0 0 0) (a ∷ []) (0 ∷ 0 ∷ 0 ∷ zeros a 0 0 0) (omega arith)
        (length-zeros a 0 0 0) refl (cons-ne-nil _ _)
  shift_short (a ∷ b ∷ []) h lt =
      shift_waits a b 0 0 (zeros a b 0 0) (a ∷ b ∷ []) (0 ∷ 0 ∷ zeros a b 0 0) (omega arith)
        (length-zeros a b 0 0) refl (cons-ne-nil _ _)
  shift_short (a ∷ b ∷ c ∷ []) h lt =
      shift_waits a b c 0 (zeros a b c 0) (a ∷ b ∷ c ∷ []) (0 ∷ zeros a b c 0) (omega arith)
        (length-zeros a b c 0) refl (cons-ne-nil _ _)
  shift_short (a ∷ b ∷ c ∷ d ∷ r) h lt = absurd (omega arith)

  pub shift_missing :
      (a b c d : ℕ) (r : Bytes)
      → AllU8 (a ∷ b ∷ c ∷ d ∷ r)
      → length r < div_ceil (from_le_bytes a b c d) 8 + div_ceil (from_le_bytes a b c d) 8
      → View max (cmd_shift ++ (a ∷ b ∷ c ∷ d ∷ r)) (ok none, cmd_shift ++ (a ∷ b ∷ c ∷ d ∷ r))
  shift_missing a b c d r (ha, (hb, (hc, (hd, _)))) lt =
      let k = div_ceil (from_le_bytes a b c d) 8 in
      let pad : Bytes = replicate (k + k - length r) 0 in
      let size : length pad ≡ k + k - length r = length-replicate (k + k - length r) 0 in
      shift_waits a b c d (r ++ pad) (a ∷ b ∷ c ∷ d ∷ r) pad (ha, (hb, (hc, (hd, tt))))
        (omega (arith, length-append r pad, size)) refl
        (λ e. absurd (omega (arith, ap length e, size)))
