-- ===== src/TokioCodec/XvcInfoDecoder/RoundTrip.antt =====
-- `XvcInfoDecoder::decode` on a server info that was written, or a part of it.
use xvc_rs.Prelude.{
  ◌-◌, ◌≡◌, ◌≢◌, none, some, [], ◌++◌, arith, Bytes, ok, length, length-append, drop_left,
}
use xvc_rs.Text.Search.{Lacks, position-Lacks}
use xvc_rs.Protocol.{XvcInfo}
use xvc_rs.Codec.Info
use xvc_rs.Codec.Info.{newline}
use xvc_rs.Codec.Info.RoundTrip.{IsInfo, parse-info_line, Lacks-part}
use xvc_rs.Rw.Write.{info_line}
use xvc_rs.TokioCodec.Buffer.{Buffer}
use xvc_rs.TokioCodec.MessageDecoder.{stop}
use xvc_rs.TokioCodec.XvcInfoDecoder.{decode, decode_line}

module _ (b : Buffer) where
  open b use {advance-drop}

  -- From a buffer that begins with the line of a server info whose numbers fit 64 and 32 bits,
  -- `decode` returns that info, and leaves the bytes behind the line in the buffer.
  pub decode-info_line :
      (i : XvcInfo) (rest : Bytes) → IsInfo i → decode b (info_line i ++ rest) ≡ (ok (some i), rest)
  unfolding decode decode_line
  decode-info_line i rest h =
      let e : length (info_line i ++ rest) - length rest ≡ length (info_line i) =
        omega (arith, length-append {0} (info_line i) rest) in
      rw (
        parse-info_line i rest h,
        e,
        advance-drop (length (info_line i)) (info_line i ++ rest)
            (omega (arith, length-append {0} (info_line i) rest)),
        drop_left (info_line i) rest,
      )

  -- Without a newline the decoder waits.
  pub decode-Lacks : (s : Bytes) → Lacks newline s → decode b s ≡ (ok none, s)
  unfolding decode decode_line stop Info.parse
  decode-Lacks s h = rw (position-Lacks newline s h)

  pub decode_part :
      (i : XvcInfo) (s q : Bytes) → info_line i ≡ s ++ q → q ≢ [] → decode b s ≡ (ok none, s)
  decode_part i s q e ne = decode-Lacks s (Lacks-part i s q e ne)
