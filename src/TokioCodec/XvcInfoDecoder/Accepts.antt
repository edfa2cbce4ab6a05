-- ===== src/TokioCodec/XvcInfoDecoder/Accepts.antt =====
-- The server infos that `XvcInfoDecoder::decode` accepts.
use xvc_rs.Prelude.{
  ◌+◌, ◌-◌, ◌≡◌, ◌↔◌, refl, sym, ◌∙◌, ap, some, ◌∷◌, ◌++◌, append_assoc, [], arith, Bytes, ok, err,
  panic, length, length-append, drop_left,
}
use xvc_rs.Protocol.{XvcInfo}
use xvc_rs.Codec.Info
use xvc_rs.Codec.Info.{newline}
use xvc_rs.Codec.Info.Spelled.{Begins, parse-Begins, parse-eq-ok}
use xvc_rs.Codec.Parser.{ParseResult}
use xvc_rs.Errors.{incomplete}
use xvc_rs.TokioCodec.Buffer.{Buffer}
use xvc_rs.TokioCodec.MessageDecoder.{stop}
use xvc_rs.TokioCodec.XvcInfoDecoder.{decode, decode_line}

module _ (b : Buffer) where
  open b use {advance, advance-drop}

  -- What is taken off the buffer is all but the rest.
  advance_line :
      (src : Bytes) (i : XvcInfo) (rest : Bytes)
      → Begins src i rest
      → advance (length src - length rest) src ≡ rest
  advance_line src i rest (line, e, _) =
      let whole : src ≡ (line ++ newline ∷ []) ++ rest =
        e ∙ sym (append_assoc line (newline ∷ []) rest) in
      let sizes : length src ≡ length (line ++ newline ∷ []) + length rest =
        ap length whole ∙ length-append (line ++ newline ∷ []) rest in
      let size : length src - length rest ≡ length (line ++ newline ∷ []) = omega arith in
      rw (size, advance-drop (length (line ++ newline ∷ [])) src (omega arith), whole)
        (drop_left (line ++ newline ∷ []) rest)

  decode_line-eq-some :
      (src : Bytes) (r : ParseResult XvcInfo × Bytes) (i : XvcInfo) (rest : Bytes)
      → Info.parse src ≡ r
      → decode_line b src r ≡ (ok (some i), rest)
      → Begins src i rest
  unfolding decode_line stop
  decode_line-eq-some src (ok info, slice) i rest e h =
      let begins = parse-eq-ok src info slice e in
      let same : info ≡ i = cc h in
      let left : slice ≡ rest = sym (advance_line src info slice begins) ∙ cc h in
      rw (← same, ← left) begins
  decode_line-eq-some src (err incomplete, slice) i rest e h = cc
  decode_line-eq-some src (err x, slice) i rest e h = cc
  decode_line-eq-some src (panic, slice) i rest e h = cc

  -- From every buffer, `decode` of the server info decoder returns an info and leaves a rest exactly
  -- when the buffer is a line, a newline and that rest, where the line is the server's prefix, a
  -- numeral of the major version, a dot, a numeral of the minor one, a colon and a numeral of the
  -- maximal vector length: digits, at least one and with leading zeros allowed, behind at most one
  -- plus sign, whose number fits 64 bits for a version and 32 bits for the length.
  pub decode-iff-Begins :
      (src : Bytes) (i : XvcInfo) (rest : Bytes)
      → (decode b src ≡ (ok (some i), rest)) ↔ Begins src i rest
  unfolding decode decode_line
  decode-iff-Begins src i rest = (
    decode_line-eq-some src (Info.parse src) i rest refl,
    λ begins. rw (parse-Begins src i rest begins) (rw (advance_line src i rest begins) refl),
  )
