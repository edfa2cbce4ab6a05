-- ===== src/Rw/Decoder.antt =====
-- `Decoder` of xvc-protocol/src/rw.rs, the blocking reader of messages and server infos.
pub mod Total
pub mod RoundTrip
pub mod Loop
pub mod Sound
pub mod Spelled
use xvc_rs.Prelude.{
  ℕ, zero, suc, ◌+◌, ◌-◌, ◌*◌, Bool, true, false, List, [], ◌∷◌, ◌++◌, ltb, ◌==◌, if◌then◌else◌,
  Bytes, codes, Outcome, ok, err, panic, ◌>>=◌, length, drop, slice_to,
}
use xvc_rs.Text.{max_usize}
use xvc_rs.Errors.{
  ErrorKind, interrupted, unexpected_eof, IoError, ParseErr, incomplete, ReadError, io_error,
  too_many_bytes, read_error,
}
use xvc_rs.Protocol.{Message, XvcInfo, XvcCommand}
use xvc_rs.Codec.Parser.{Parser, ParseResult}
use xvc_rs.Codec.Command
use xvc_rs.Codec.SetTck
use xvc_rs.Codec.Shift
use xvc_rs.Codec.Shift.{Shift, into_tms_tdi}
use xvc_rs.Codec.Info

pub record Decoder : Type 0 where
  pub buf : Bytes
  pub max_buf : ℕ
  pub max_shift : ℕ

abbrev pub saturate : ℕ → ℕ
saturate n = if ltb max_usize n then max_usize else n

unfoldable pub new : ℕ → Decoder
new max_shift = record {
  buf = [];
  max_buf = saturate (saturate (max_shift * 2) + 16);
  max_shift = max_shift;
}

-- What the calls of `reader.read` come to, in order. Behind the last one they give no byte.
pub data ReadEvent : Type 0 where
  received : Bytes → ReadEvent
  failed : IoError → ReadEvent

-- `let mut temp = [0u8; 1024]`
abbrev pub temp_size : ℕ
temp_size = 1024

abbrev pub is_interrupted : ErrorKind → Bool
is_interrupted interrupted = true
is_interrupted _ = false

-- The loop that reads again after `Interrupted`.
unfoldable pub read_retry : List ReadEvent → Outcome IoError Bytes × List ReadEvent
read_retry [] = (ok [], [])
read_retry (received s ∷ reader) = (ok s, reader)
read_retry (failed e ∷ reader) =
    let more = read_retry reader in if is_interrupted e.kind then more else (err e, reader)

abbrev pub eof : IoError
eof = record { kind = unexpected_eof; message = codes "unexpected EOF while reading" }

-- What `read_chunk` does with the bytes in `temp`.
unfoldable pub store : Decoder → Bytes → Outcome ReadError Decoder
store d s =
    if length s == 0
    then err (io_error eof)
    else if ltb d.max_buf (length s + length d.buf)
    then err (too_many_bytes d.max_buf (length s + length d.buf))
    else if ltb temp_size (length s)
    then panic
    else ok (record d { buf = d.buf ++ s })

unfoldable pub stored :
    Decoder → Outcome IoError Bytes × List ReadEvent → Outcome ReadError Decoder × List ReadEvent
unfolding store
stored d (ok s, reader) = (store d s, reader)
stored d (err e, reader) = (err (io_error e), reader)
stored d (panic, reader) = (panic, reader)

unfoldable pub read_chunk : Decoder → List ReadEvent → Outcome ReadError Decoder × List ReadEvent
unfolding stored read_retry
read_chunk d reader = stored d (read_retry reader)

-- A result of the decoder, with its state and the reader's after the call.
abbrev pub Read : Type 0 → Type 0
Read A = Outcome ReadError A × Decoder × List ReadEvent

abbrev pub then_read : {A B : Type 0} → Read A → (A → Decoder → List ReadEvent → Read B) → Read B
then_read (ok a, d, reader) f = f a d reader
then_read (err e, d, reader) f = (err e, d, reader)
then_read (panic, d, reader) f = (panic, d, reader)

-- `self.read_chunk(reader)?`, and the next round.
unfoldable pub resume :
    {A : Type 0}
    → Decoder
    → Outcome ReadError Decoder × List ReadEvent
    → (Decoder → List ReadEvent → Read A)
    → Read A
resume d (ok d', reader) next = next d' reader
resume d (err e, reader) next = (err e, d, reader)
resume d (panic, reader) next = (panic, d, reader)

-- The arms of `match …::parse(&mut slice)`; the result comes with what is left of the slice.
unfoldable pub attempt :
    {A : Type 0}
    → ParseResult A × Bytes
    → Decoder
    → List ReadEvent
    → (Unit {0} → Read (A × Bytes))
    → Read (A × Bytes)
attempt (ok a, slice) d reader more = (ok (a, slice), d, reader)
attempt (err incomplete, slice) d reader more = more tt
attempt (err e, slice) d reader more = (err (read_error e), d, reader)
attempt (panic, slice) d reader more = (panic, d, reader)

-- The loop around one parser. Each round but the last takes an event off the reader, so one unit of
-- fuel for each event and one more are enough; without fuel the result is `panic`.
unfoldable pub parse_loop :
    {A : Type 0} → Parser A → ℕ → Decoder → List ReadEvent → Read (A × Bytes)
parse_loop parse zero d reader = (panic, d, reader)
parse_loop parse (suc fuel) d reader =
    attempt (parse d.buf) d reader (λ _. resume d (read_chunk d reader) (parse_loop parse fuel))

abbrev pub run_loop : {A : Type 0} → Parser A → Decoder → List ReadEvent → Read (A × Bytes)
run_loop parse d reader = parse_loop parse (suc (length reader)) d reader

-- `self.buf.clear()`
abbrev pub clear : Decoder → Decoder
clear d = record d { buf = [] }

-- `self.buf.drain(..consumed)` behind the command.
abbrev pub drain : Decoder → Bytes → Decoder
drain d slice = record d { buf = drop (length d.buf - length slice) d.buf }

unfoldable pub read_xvc_info : Decoder → List ReadEvent → Read XvcInfo
read_xvc_info d reader =
    then_read (run_loop Info.parse (clear d) reader)
      λ (frame, _) d' reader'. (ok frame, d', reader')

unfoldable pub read_payload : XvcCommand → Decoder → List ReadEvent → Read Message
read_payload XvcCommand.get_info d reader = (ok Message.get_info, d, reader)
read_payload XvcCommand.set_tck d reader =
    then_read (run_loop SetTck.parse d reader)
      λ (tck, _) d' reader'. (ok (Message.set_tck tck), d', reader')
read_payload XvcCommand.shift d reader =
    then_read (run_loop (Shift.parse d.max_shift) d reader) λ (shift, _) d' reader'.
      (ok (Message.shift shift.num_bits (into_tms_tdi shift).0 (into_tms_tdi shift).1), d', reader')

unfoldable pub read_message : Decoder → List ReadEvent → Read Message
unfolding read_payload
read_message d reader =
    then_read (run_loop Command.parse (clear d) reader)
      λ (cmd, slice) d' reader'. read_payload cmd (drain d' slice) reader'

-- `XvcInfo::from_reader` and `Message::from_reader`
unfoldable pub info_from_reader : List ReadEvent → Outcome ReadError XvcInfo
unfolding read_xvc_info new
info_from_reader reader = (read_xvc_info (new 4096) reader).0

unfoldable pub message_from_reader : ℕ → List ReadEvent → Outcome ReadError Message
unfolding read_message new
message_from_reader max_shift_bytes reader = (read_message (new max_shift_bytes) reader).0
