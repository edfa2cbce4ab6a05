-- ===== src/TokioCodec/MessageDecoder/Prefix.antt =====
-- `MessageDecoder::decode` of xvc-protocol/src/tokio_codec.rs on a buffer that holds part of a message.
use xvc_rs.Prelude.{
  ℕ, ◌≡◌, ◌≢◌, refl, ◌∙◌, ap, none, some, [], ◌∷◌, ◌++◌, append_assoc, append-nil, append-eq-nil,
  Bytes, AllU8, ok,
}
use xvc_rs.Protocol.{Message}
use xvc_rs.Rw.Write.{encode, IsWire}
use xvc_rs.TokioCodec.Buffer.{Buffer}
use xvc_rs.TokioCodec.MessageDecoder.{Decoded, decode}
use xvc_rs.TokioCodec.MessageDecoder.RoundTrip.{decode-encode}
use xvc_rs.TokioCodec.MessageDecoder.View.{View, message, waiting, foreign, oversized}
use xvc_rs.TokioCodec.MessageDecoder.Sound.{decode-View, decode_oversized, decode-IsForeign}
use xvc_rs.Codec.Command.{IsForeign-append, cmd_shift}

module _ (bb : Buffer) (max : ℕ) where
  decode-encode-nil : (m : Message) → IsWire max m → decode bb max (encode m) ≡ (ok (some m), [])
  decode-encode-nil m w = let h = decode-encode bb max m [] w in rw (append-nil (encode m)) at h

  -- A proper part of a message is no message and no error.
  part-View :
      (m : Message) (s q : Bytes) {d : Decoded Message}
      → IsWire max m
      → encode m ≡ s ++ q
      → q ≢ []
      → View max s d
      → d ≡ (ok none, s)
  part-View m s q w e ne (message m' r e' w') =
      let whole : encode m ≡ encode m' ++ (r ++ q) =
        e ∙ (ap (λ t. t ++ q) e' ∙ append_assoc (encode m') r q) in
      let same : decode bb max (encode m) ≡ (ok (some m'), r ++ q) =
        rw whole (decode-encode bb max m' (r ++ q) w') in
      absurd (ne (append-eq-nil r q (cc (same, decode-encode-nil m w))))
  part-View m s q w e ne (waiting _ _ _ _ _ _) = refl
  part-View m s q w e ne (foreign f) =
      let same = rw (← e) at (decode-IsForeign bb max (s ++ q) (IsForeign-append s q f)) in
      cc (same, decode-encode-nil m w)
  part-View m s q w e ne (oversized a b c d r e' over) =
      let whole : encode m ≡ cmd_shift ++ (a ∷ b ∷ c ∷ d ∷ (r ++ q)) = e ∙ ap (λ t. t ++ q) e' in
      let same = rw (← whole) at (decode_oversized bb max a b c d (r ++ q) over) in
      cc (same, decode-encode-nil m w)

  -- On a buffer of bytes below 256 that is a proper part, from the front, of an encoded message that
  -- fits the protocol and the limit, `decode` asks for more bytes and leaves the buffer as it is.
  pub decode_part :
      (m : Message) (s q : Bytes)
      → IsWire max m
      → AllU8 s
      → encode m ≡ s ++ q
      → q ≢ []
      → decode bb max s ≡ (ok none, s)
  decode_part m s q w h e ne = part-View m s q w e ne (decode-View bb max s h)
