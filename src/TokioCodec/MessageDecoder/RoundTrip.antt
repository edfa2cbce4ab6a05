-- ===== src/TokioCodec/MessageDecoder/RoundTrip.antt =====
-- `MessageDecoder::decode` on a message that was written.
use xvc_rs.Prelude.{
  ℕ, ◌-◌, ◌≡◌, sym, ◌∙◌, some, ◌++◌, arith, Bytes, ok, length, to_le_bytes, length-append,
  drop_left, append_assoc,
}
use xvc_rs.Protocol.{XvcCommand, Message}
use xvc_rs.Codec.Command
use xvc_rs.Codec.SetTck
use xvc_rs.Codec.Shift
use xvc_rs.Rw.Write.{encode, IsWire}
use xvc_rs.TokioCodec.Buffer.{Buffer}
use xvc_rs.TokioCodec.MessageDecoder.{
  finish, decode, decode_payload, decode_command, decode_set_tck, decode_shift,
}

module _ (b : Buffer) where
  open b use {advance-drop}

  finish-append : (p r : Bytes) (m : Message) → finish b (p ++ r) m r ≡ (ok (some m), r)
  unfolding finish
  finish-append p r m =
      let e : length (p ++ r) - length r ≡ length p = omega (arith, length-append {0} p r) in
      rw e (
        rw (advance-drop (length p) (p ++ r) (omega (arith, length-append {0} p r)), drop_left p r))

  pub decode-name :
      (max : ℕ) (c : XvcCommand) (r : Bytes)
      → decode b max (Command.name c ++ r) ≡ decode_payload b max (Command.name c ++ r) c r
  unfolding decode decode_command
  decode-name max c r = rw (Command.parse-name c r)

  -- From a buffer that begins with an encoded message that fits the protocol and the limit, `decode`
  -- returns that message, and leaves the bytes behind it in the buffer.
  pub decode-encode :
      (max : ℕ) (m : Message) (rest : Bytes)
      → IsWire max m
      → decode b max (encode m ++ rest) ≡ (ok (some m), rest)
  unfolding encode decode_payload decode_set_tck decode_shift
  decode-encode max Message.get_info rest h =
      decode-name max XvcCommand.get_info rest
      ∙ finish-append (Command.name XvcCommand.get_info) rest Message.get_info
  decode-encode max (Message.set_tck p) rest h =
      decode-name max XvcCommand.set_tck (to_le_bytes p ++ rest)
      ∙ rw (SetTck.parse-to_le_bytes p rest h)
          (finish-append (encode (Message.set_tck p)) rest (Message.set_tck p))
  decode-encode max (Message.shift n tms tdi) rest (hn, hs, hi, hm) =
      rw (append_assoc tms tdi rest) (
        decode-name max XvcCommand.shift (to_le_bytes n ++ (tms ++ (tdi ++ rest)))
        ∙ rw (Shift.parse-to_le_bytes max n tms tdi rest hn hs hi hm) (
            rw (sym (append_assoc tms tdi rest))
              (finish-append (encode (Message.shift n tms tdi)) rest (Message.shift n tms tdi))))
