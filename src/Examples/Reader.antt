-- ===== src/Examples/Reader.antt =====
-- The blocking decoder of rw.rs on readers that are interrupted, and on one that fails.
use mathlib.Core.List.{cons-ne-nil}
use xvc_rs.Prelude.{◌≡◌, sym, refl, List, [], ◌∷◌, ◌++◌, arith, codes, ok}
use xvc_rs.Errors.{IoError, interrupted, timed_out}
use xvc_rs.Protocol.{Message, XvcInfo, v1_0}
use xvc_rs.Text.{decimal, decimal_onto}
use xvc_rs.Rw.Write.{encode, info_line, show_version}
use xvc_rs.Rw.FromReader.{message_from_reader-encode, info_from_reader-info_line}
use xvc_rs.Rw.Decoder.Loop.{arriving}
use xvc_rs.Rw.Decoder.{
  read_xvc_info, Decoder, message_from_reader, info_from_reader, ReadEvent, received, failed,
  read_message,
}
use xvc_rs.Rw.Decoder.RoundTrip.{Returns, read_message-encode}
use xvc_rs.Rw.Decoder.Spelled.{Spelled, read_message-Spelled}
use xvc_rs.Rw.Decoder.Total.{Settled, read_message-Settled, read_xvc_info-Settled}

abbrev decoder : Decoder
decoder = record { buf = codes "old"; max_buf = 64; max_shift = 4 }

abbrev interruption : IoError
interruption = record { kind = interrupted; message = [] }

abbrev in_pieces : List ReadEvent
in_pieces =
    received (codes "sett")
    ∷ failed interruption
    ∷ received (codes "ck:" ++ 10 ∷ [])
    ∷ received (0 ∷ 0 ∷ 0 ∷ 9 ∷ [])
    ∷ []

abbrev broken_line : List ReadEvent
broken_line = received (codes "xvc") ∷ failed (record { kind = timed_out; message = [] }) ∷ []

read_message-encode_example : Returns (Message.set_tck 10) (9 ∷ []) (read_message decoder in_pieces)
read_message-encode_example =
    read_message-encode decoder (Message.set_tck 10) (9 ∷ []) in_pieces (omega arith)
      (
        cons-ne-nil _ _,
        omega arith,
        (refl, (cons-ne-nil _ _, omega arith, (cons-ne-nil _ _, omega arith, tt))),
      )
      (unfold encode in refl) (unfold encode in omega arith)

read_message-Spelled_example : Spelled (arriving in_pieces) 4 (read_message decoder in_pieces)
read_message-Spelled_example = read_message-Spelled decoder in_pieces (omega arith)

read_message-Settled_example : Settled (read_message decoder broken_line)
read_message-Settled_example = read_message-Settled decoder broken_line (omega arith, tt)

read_xvc_info-Settled_example : Settled (read_xvc_info decoder broken_line)
read_xvc_info-Settled_example = read_xvc_info-Settled decoder broken_line (omega arith, tt)

-- An info line cut in two, with a byte behind it.
abbrev info_in_pieces : List ReadEvent
info_in_pieces =
    received (codes "xvcServer_v1.0")
    ∷ failed interruption
    ∷ received (codes ":32\n" ++ 9 ∷ [])
    ∷ []

abbrev small_info : XvcInfo
small_info = record { version = v1_0; max_vector_len = 32 }

info_pieces-joined : arriving info_in_pieces ≡ info_line small_info ++ (9 ∷ [])
unfolding info_line show_version decimal decimal_onto
info_pieces-joined = refl

info_from_reader-info_line_example : info_from_reader info_in_pieces ≡ ok small_info
info_from_reader-info_line_example =
    info_from_reader-info_line small_info (9 ∷ []) info_in_pieces
      ((omega arith, omega arith), omega arith)
      (cons-ne-nil _ _, omega arith, (refl, (cons-ne-nil _ _, omega arith, tt))) info_pieces-joined
      (rw (sym info_pieces-joined) (omega arith))

abbrev exactly_set_tck : List ReadEvent
exactly_set_tck = received (codes "settc") ∷ received (codes "k:" ++ 10 ∷ 0 ∷ 0 ∷ 0 ∷ []) ∷ []

message_from_reader-encode_example : message_from_reader 0 exactly_set_tck ≡ ok (Message.set_tck 10)
message_from_reader-encode_example =
    message_from_reader-encode 0 (Message.set_tck 10) exactly_set_tck (omega arith)
      (cons-ne-nil _ _, omega arith, (cons-ne-nil _ _, omega arith, tt)) (unfold encode in refl)
