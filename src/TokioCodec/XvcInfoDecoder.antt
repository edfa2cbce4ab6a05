-- ===== src/TokioCodec/XvcInfoDecoder.antt =====
-- `XvcInfoDecoder` of xvc-protocol/src/tokio_codec.rs.
pub mod RoundTrip
pub mod Accepts
use xvc_rs.Prelude.{◌-◌, some, Bytes, ok, err, panic, length}
use xvc_rs.Protocol.{XvcInfo}
use xvc_rs.Codec.Info
use xvc_rs.Codec.Parser.{ParseResult}
use xvc_rs.TokioCodec.Buffer.{Buffer}
use xvc_rs.TokioCodec.MessageDecoder.{Decoded, stop}

module _ (b : Buffer) where
  open b use {advance}

  unfoldable pub decode_line : Bytes → ParseResult XvcInfo × Bytes → Decoded XvcInfo
  unfolding stop
  decode_line src (ok info, slice) = (ok (some info), advance (length src - length slice) src)
  decode_line src (err e, slice) = stop src e
  decode_line src (panic, slice) = (panic, src)

  unfoldable pub decode : Bytes → Decoded XvcInfo
  unfolding decode_line
  decode src = decode_line src (Info.parse src)
