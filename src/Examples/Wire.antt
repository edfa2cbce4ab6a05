-- ===== src/Examples/Wire.antt =====
-- Messages and server infos in bytes: the writers, the parsers and the two decoders of tokio_codec.rs.
use mathlib.Core.List.{cons-ne-nil}
use xvc_rs.Prelude.{
  Bytes, ◌↔◌, ◌≡◌, refl, some, none, [], ◌∷◌, ◌++◌, arith, codes, ok, err, to_le_bytes, div_ceil,
  from_le_bytes,
}
use xvc_rs.Errors.{ReadError}
use xvc_rs.Protocol.{Message, XvcInfo, v1_0}
use xvc_rs.Codec.Command.{cmd_shift}
use xvc_rs.Rw.Write.{encode}
use xvc_rs.TokioCodec.Buffer.{list_buffer}
use xvc_rs.TokioCodec.MessageDecoder.{decode}
use xvc_rs.TokioCodec.MessageDecoder.RoundTrip.{decode-encode}
use xvc_rs.TokioCodec.MessageDecoder.View.{View}
use xvc_rs.TokioCodec.MessageDecoder.Sound.{decode-View, decode_oversized}
use xvc_rs.TokioCodec.MessageDecoder.Prefix.{decode_part}
use xvc_rs.TokioCodec.XvcInfoDecoder
use xvc_rs.TokioCodec.XvcInfoDecoder.Accepts.{decode-iff-Begins}
use xvc_rs.Codec.Info.{newline}
use xvc_rs.Codec.Info.Spelled.{Spells, Begins}
use xvc_rs.Text.Numeral.{Numeral, value}

abbrev two_bytes : Message
two_bytes = Message.shift 9 (1 ∷ 0 ∷ []) (2 ∷ 1 ∷ [])

abbrev small_info : XvcInfo
small_info = record { version = v1_0; max_vector_len = 2048 }

decode-encode_example :
    decode list_buffer 2 (encode two_bytes ++ codes "getinfo:")
    ≡ (ok (some two_bytes), codes "getinfo:")
decode-encode_example =
    decode-encode list_buffer 2 two_bytes (codes "getinfo:") (omega arith, refl, refl, omega arith)

decode_part_example : decode list_buffer 2 (codes "sett") ≡ (ok none, codes "sett")
decode_part_example =
    decode_part list_buffer 2 (Message.set_tck 10) (codes "sett") (codes "ck:" ++ to_le_bytes 10)
      (omega arith) (omega arith) (unfold encode in refl) (cons-ne-nil _ _)

decode-View_example :
    View 2
      (codes "shift:" ++ 200 ∷ 0 ∷ 0 ∷ 0 ∷ [])
      (decode list_buffer 2 (codes "shift:" ++ 200 ∷ 0 ∷ 0 ∷ 0 ∷ []))
decode-View_example =
    decode-View list_buffer 2 (codes "shift:" ++ 200 ∷ 0 ∷ 0 ∷ 0 ∷ []) (omega arith)

decode_oversized_example : decode list_buffer 2 (cmd_shift ++ (200 ∷ 0 ∷ 0 ∷ 0 ∷ [])) ≡ (
  err (ReadError.too_many_bytes 2 (div_ceil (from_le_bytes 200 0 0 0) 8)),
  cmd_shift ++ (200 ∷ 0 ∷ 0 ∷ 0 ∷ []),
)
decode_oversized_example = decode_oversized list_buffer 2 200 0 0 0 [] (omega arith)

-- Numbers may have a plus sign and zeros in front.
abbrev odd_line : Bytes
odd_line = codes "xvcServer_v+1.007:0032"

abbrev odd_info : XvcInfo
odd_info = record { version = record { major = 1; minor = 7 }; max_vector_len = 32 }

decode-iff-Begins_example :
    (XvcInfoDecoder.decode list_buffer (odd_line ++ newline ∷ 7 ∷ [])
      ≡ (ok (some odd_info), 7 ∷ []))
    ↔ Begins (odd_line ++ newline ∷ 7 ∷ []) odd_info (7 ∷ [])
decode-iff-Begins_example =
    decode-iff-Begins list_buffer (odd_line ++ newline ∷ 7 ∷ []) odd_info (7 ∷ [])

odd_line-Spells : Spells odd_line odd_info
unfolding value
odd_line-Spells = (
  codes "+1.007",
  codes "0032",
  refl,
  (
    codes "+1",
    codes "007",
    refl,
    Numeral.signed (codes "1") 1 (cons-ne-nil _ _) (omega arith) refl (omega arith),
    Numeral.unsigned (codes "007") 7 (cons-ne-nil _ _) (omega arith) refl (omega arith),
  ),
  Numeral.unsigned (codes "0032") 32 (cons-ne-nil _ _) (omega arith) refl (omega arith),
)

odd_line_test :
    XvcInfoDecoder.decode list_buffer (odd_line ++ newline ∷ 7 ∷ []) ≡ (ok (some odd_info), 7 ∷ [])
odd_line_test =
    (decode-iff-Begins list_buffer (odd_line ++ newline ∷ 7 ∷ []) odd_info (7 ∷ [])).1
      (odd_line, refl, odd_line-Spells)
