-- ===== src/Rw/FromReader.antt =====
-- `Message::from_reader` and `XvcInfo::from_reader` of xvc-protocol/src/rw.rs: a new decoder's buffer.
use xvc_rs.Prelude.{
  ℕ, suc, ◌+◌, ◌*◌, ◌^◌, ◌≤◌, ◌<◌, ◌≡◌, refl, sym, ◌∙◌, ap, [], ◌++◌, List, append-nil, arith,
  Bytes, ok, err, length, length-append, div_ceil, div_ceil-eight,
}
use xvc_rs.Text.{max_usize}
use xvc_rs.Text.Search.{Lacks, position-Lacks}
use xvc_rs.Errors.{incomplete}
use xvc_rs.Protocol.{Message, XvcInfo}
use xvc_rs.Codec.Info
use xvc_rs.Codec.Info.{newline}
use xvc_rs.Codec.Info.RoundTrip.{IsInfo, parse-info_line, Lacks-part}
use xvc_rs.Rw.Write.{encode, IsWire, info_line}
use xvc_rs.Rw.Decoder.{
  Decoder, ReadEvent, new, message_from_reader, info_from_reader, read_xvc_info,
}
use xvc_rs.Rw.Decoder.Loop.{Arrive, arriving, parse_loop-Found}
use xvc_rs.Rw.Decoder.RoundTrip.{read_message-encode}

max_buf_lem :
    (max_shift n : ℕ) → n ≤ max_shift * 2 + 16 → n ≤ max_usize → n ≤ (new max_shift).max_buf
unfolding new
max_buf_lem max_shift n h g = ground arith

vector_size : (n : ℕ) → n < 2 ^ 32 → div_ceil n 8 ≤ 2 ^ 29
vector_size n h = omega (arith, div_ceil-eight n)

-- A new decoder's buffer holds every message within its limit.
encode-fits :
    (max_shift : ℕ) (m : Message) → IsWire max_shift m → length (encode m) ≤ (new max_shift).max_buf
unfolding encode
encode-fits max_shift Message.get_info w = max_buf_lem max_shift 8 (omega arith) (omega arith)
encode-fits max_shift (Message.set_tck p) w = max_buf_lem max_shift 11 (omega arith) (omega arith)
encode-fits max_shift (Message.shift n tms tdi) (hn, hs, hi, hm) =
    max_buf_lem max_shift _ (omega (arith, length-append {0} tms tdi, hs, hi))
      (omega (arith, length-append {0} tms tdi, hs, hi, vector_size n hn))

-- If a reader's reads, non-empty, of at most 1024 bytes each and with interruptions between them,
-- bring exactly an encoded message that fits the protocol and a limit, then `Message::from_reader`
-- with that limit returns the message: a new decoder's buffer is large enough.
pub message_from_reader-encode :
    (max_shift : ℕ) (m : Message) (reader : List ReadEvent)
    → IsWire max_shift m
    → Arrive reader
    → arriving reader ≡ encode m
    → message_from_reader max_shift reader ≡ ok m
unfolding message_from_reader
message_from_reader-encode max_shift m reader w h j =
    let all : length (encode m ++ []) ≤ (new max_shift).max_buf =
      omega (arith, encode-fits max_shift m w, length-append {0} (encode m) []) in
    let (d, later, lost, runs, _, _) =
      read_message-encode (new max_shift) m [] reader w h (j ∙ sym (append-nil (encode m))) all in
    ap (λ r. r.0) runs

-- Without a newline `XvcInfo::parse` waits.
parse-Lacks : (s : Bytes) → Lacks newline s → Info.parse s ≡ (err incomplete, s)
unfolding Info.parse
parse-Lacks s h = rw (position-Lacks newline s h)

read_xvc_info-info_line :
    (d : Decoder) (i : XvcInfo) (rest : Bytes) (reader : List ReadEvent)
    → IsInfo i
    → Arrive reader
    → arriving reader ≡ info_line i ++ rest
    → length (info_line i ++ rest) ≤ d.max_buf
    → (read_xvc_info d reader).0 ≡ ok i
unfolding read_xvc_info
read_xvc_info-info_line d i rest reader w h j fits =
    let (r, later, found, _, _) =
      parse_loop-Found d.max_buf d.max_shift Info.parse (info_line i) i
        (λ rest'. parse-info_line i rest' w)
        (λ s q e ne. (s, parse-Lacks s (Lacks-part i s q e ne))) rest (suc (length reader)) []
        reader (omega arith) h j fits in
    rw found refl

-- If a reader's reads, non-empty, of at most 1024 bytes each and with interruptions between them,
-- bring the line of a server info whose numbers fit 64 and 32 bits and some bytes behind it, at most
-- 8208 bytes in all, then `XvcInfo::from_reader` returns that info.
pub info_from_reader-info_line :
    (i : XvcInfo) (rest : Bytes) (reader : List ReadEvent)
    → IsInfo i
    → Arrive reader
    → arriving reader ≡ info_line i ++ rest
    → length (info_line i ++ rest) ≤ 8208
    → info_from_reader reader ≡ ok i
unfolding info_from_reader new
info_from_reader-info_line i rest reader w h j fits =
    read_xvc_info-info_line (new 4096) i rest reader w h j fits
