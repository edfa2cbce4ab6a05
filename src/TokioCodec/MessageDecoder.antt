-- ===== src/TokioCodec/MessageDecoder.antt =====
-- `MessageDecoder` of xvc-protocol/src/tokio_codec.rs.
pub mod RoundTrip
pub mod View
pub mod Sound
pub mod Prefix
use xvc_rs.Prelude.{ℕ, ◌-◌, Option, none, some, Bytes, Outcome, ok, err, panic, length}
use xvc_rs.Errors.{ParseErr, incomplete, ReadError, read_error}
use xvc_rs.Protocol.{XvcCommand, Message}
use xvc_rs.Codec.Parser.{ParseResult}
use xvc_rs.Codec.Command
use xvc_rs.Codec.SetTck
use xvc_rs.Codec.Shift
use xvc_rs.Codec.Shift.{Shift, into_tms_tdi}
use xvc_rs.TokioCodec.Buffer.{Buffer}

-- The result of `decode`, and `src` after the call.
abbrev pub Decoded : Type 0 → Type 0
Decoded A = Outcome ReadError (Option A) × Bytes

-- `Err(ParseErr::Incomplete) => return Ok(None), Err(e) => return Err(e.into())`
unfoldable pub stop : {A : Type 0} → Bytes → ParseErr → Decoded A
stop src incomplete = (ok none, src)
stop src e = (err (read_error e), src)

module _ (b : Buffer) where
  open b use {advance}

  -- `src.advance(src.len() - slice.len())`
  unfoldable pub finish : Bytes → Message → Bytes → Decoded Message
  finish src msg slice = (ok (some msg), advance (length src - length slice) src)

  unfoldable pub decode_set_tck : Bytes → ParseResult ℕ × Bytes → Decoded Message
  decode_set_tck src (ok period, slice) = finish src (Message.set_tck period) slice
  decode_set_tck src (err e, slice) = stop src e
  decode_set_tck src (panic, slice) = (panic, src)

  unfoldable pub decode_shift : Bytes → ParseResult Shift × Bytes → Decoded Message
  decode_shift src (ok s, slice) =
      let (tms, tdi) = into_tms_tdi s in finish src (Message.shift s.num_bits tms tdi) slice
  decode_shift src (err e, slice) = stop src e
  decode_shift src (panic, slice) = (panic, src)

  -- `match cmd { … }`
  unfoldable pub decode_payload : ℕ → Bytes → XvcCommand → Bytes → Decoded Message
  decode_payload max_shift src XvcCommand.get_info slice = finish src Message.get_info slice
  decode_payload max_shift src XvcCommand.set_tck slice = decode_set_tck src (SetTck.parse slice)
  decode_payload max_shift src XvcCommand.shift slice =
      decode_shift src (Shift.parse max_shift slice)

  unfoldable pub decode_command : ℕ → Bytes → ParseResult XvcCommand × Bytes → Decoded Message
  unfolding decode_payload
  decode_command max_shift src (ok cmd, slice) = decode_payload max_shift src cmd slice
  decode_command max_shift src (err e, slice) = stop src e
  decode_command max_shift src (panic, slice) = (panic, src)

  -- `decode` of a decoder whose limit is `max_shift`.
  unfoldable pub decode : ℕ → Bytes → Decoded Message
  unfolding decode_command decode_set_tck decode_shift finish stop
  decode max_shift src = decode_command max_shift src (Command.parse src)
