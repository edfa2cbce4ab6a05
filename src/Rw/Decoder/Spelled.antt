-- ===== src/Rw/Decoder/Spelled.antt =====
-- The messages and the server infos that the blocking decoder returns.
use xvc_rs.Prelude.{
  ℕ, ◌-◌, ◌<◌, ◌≡◌, refl, sym, ap, ◌∙◌, List, ◌++◌, append_assoc, arith, Bytes, AllU8,
  All-append_left, All-append_right, ok, err, panic, length, length-append, drop, drop_left,
}
use xvc_rs.Protocol.{Message, XvcCommand, XvcInfo}
use xvc_rs.Codec.Command
use xvc_rs.Codec.SetTck
use xvc_rs.Codec.Shift
use xvc_rs.Codec.Shift.{Shift, into_tms_tdi}
use xvc_rs.Codec.Info
use xvc_rs.Codec.Info.Spelled.{Begins, parse-eq-ok}
use xvc_rs.Codec.Inverse.{command-eq-ok, set_tck-eq-ok, shift-eq-ok}
use xvc_rs.Rw.Write.{encode, IsWire}
use xvc_rs.Rw.Decoder.{
  Decoder, ReadEvent, Read, then_read, run_loop, clear, drain, read_payload, read_message,
  read_xvc_info,
}
use xvc_rs.Rw.Decoder.Loop.{arriving}
use xvc_rs.Rw.Decoder.Sound.{Brings, Parsed, run_loop-Parsed}

-- A message is what these bytes begin with; then come those that were read with it, and the reader's.
abbrev pub Spelled : Bytes → ℕ → Read Message → Type 0
Spelled total max (ok m, d, later) =
    IsWire max m × (behind : Bytes) × (total ≡ encode m ++ (behind ++ arriving later))
Spelled total max (err e, d, later) = Unit
Spelled total max (panic, d, later) = Unit

module _ (total : Bytes) (max : ℕ) (u : AllU8 total) where
  buffer-AllU8 : (d : Decoder) (reader : List ReadEvent) → Brings total max d reader → AllU8 d.buf
  buffer-AllU8 d reader (e, _) = All-append_left (λ b. b < 256) d.buf (arriving reader) (rw e u)

  set_tck-Spelled :
      (r : Read (ℕ × Bytes))
      → Parsed SetTck.parse total max r
      → Spelled
          (Command.name XvcCommand.set_tck ++ total)
          max
          (then_read r λ (tck, _) d' reader'. (ok (Message.set_tck tck), d', reader'))
  unfolding encode
  set_tck-Spelled (ok (p, slice), d, later) (e, b) =
      let (cut, small) = set_tck-eq-ok d.buf p slice (buffer-AllU8 d later b) e in
      (
        small,
        slice,
        ap (λ t. Command.name XvcCommand.set_tck ++ t)
            (sym b.0 ∙ ap (λ t. t ++ arriving later) cut),
      )
  set_tck-Spelled (err x, d, later) h = tt
  set_tck-Spelled (panic, d, later) h = tt

  shift-Spelled :
      (r : Read (Shift × Bytes))
      → Parsed (Shift.parse max) total max r
      → Spelled (Command.name XvcCommand.shift ++ total) max (
          then_read r λ (shift, _) d' reader'. (
            ok (Message.shift shift.num_bits (into_tms_tdi shift).0 (into_tms_tdi shift).1),
            d',
            reader',
          ))
  unfolding encode
  shift-Spelled (ok (shift, slice), d, later) (e, b) =
      let (cut, wire) = shift-eq-ok max d.buf shift slice (buffer-AllU8 d later b) e in
      (
        wire,
        slice,
        ap (λ t. Command.name XvcCommand.shift ++ t)
            (sym b.0 ∙ (ap (λ t. t ++ arriving later) cut ∙ simp append_assoc)),
      )
  shift-Spelled (err x, d, later) h = tt
  shift-Spelled (panic, d, later) h = tt

  read_payload-Spelled :
      (c : XvcCommand) (d : Decoder) (reader : List ReadEvent)
      → Brings total max d reader
      → Spelled (Command.name c ++ total) max (read_payload c d reader)
  unfolding read_payload encode
  read_payload-Spelled XvcCommand.get_info d reader b =
      (tt, d.buf, ap (λ t. Command.name XvcCommand.get_info ++ t) (sym b.0))
  read_payload-Spelled XvcCommand.set_tck d reader b =
      set_tck-Spelled (run_loop SetTck.parse d reader)
        (run_loop-Parsed SetTck.parse total max d reader b)
  read_payload-Spelled XvcCommand.shift d reader b = simp b.1 (
      shift-Spelled (run_loop (Shift.parse max) d reader)
        (run_loop-Parsed (Shift.parse max) total max d reader b))

-- What is left behind the command.
drained :
    (front slice : Bytes) → drop (length (front ++ slice) - length slice) (front ++ slice) ≡ slice
drained front slice =
    let size : length (front ++ slice) - length slice ≡ length front =
      omega (arith, length-append {0} front slice) in
    rw size (drop_left front slice)

command-Spelled :
    (total : Bytes) (max : ℕ) (r : Read (XvcCommand × Bytes))
    → AllU8 total
    → Parsed Command.parse total max r
    → Spelled total max
        (then_read r λ (cmd, slice) d' reader'. read_payload cmd (drain d' slice) reader')
command-Spelled total max (ok (c, slice), d, later) u (e, (whole, limit)) =
    let cut : d.buf ≡ Command.name c ++ slice = command-eq-ok d.buf c slice e in
    let parts : Command.name c ++ (slice ++ arriving later) ≡ total =
      sym (append_assoc (Command.name c) slice (arriving later))
      ∙ (ap (λ t. t ++ arriving later) (sym cut) ∙ whole) in
    let left : drop (length d.buf - length slice) d.buf ≡ slice =
      rw cut (drained (Command.name c) slice) in
    let rest_u8 : AllU8 (slice ++ arriving later) =
      All-append_right (λ b. b < 256) (Command.name c) (slice ++ arriving later) (rw parts u) in
    rw (← parts) (
      read_payload-Spelled (slice ++ arriving later) max rest_u8 c (drain d slice) later
        (ap (λ t. t ++ arriving later) left, limit))
command-Spelled total max (err x, d, later) u h = tt
command-Spelled total max (panic, d, later) u h = tt

-- On every reader of bytes below 256, with failing, empty and interrupted reads anywhere, a message
-- that the blocking `read_message` returns fits the protocol and the decoder's limit, and its
-- encoding is what the reader's bytes begin with; behind it come the bytes that were read with it,
-- and then those that the reader still brings.
pub read_message-Spelled :
    (d : Decoder) (reader : List ReadEvent)
    → AllU8 (arriving reader)
    → Spelled (arriving reader) d.max_shift (read_message d reader)
unfolding read_message
read_message-Spelled d reader u =
    command-Spelled (arriving reader) d.max_shift (run_loop Command.parse (clear d) reader) u
      (run_loop-Parsed Command.parse (arriving reader) d.max_shift (clear d) reader (refl, refl))

-- An info is spelled by the line that these bytes begin with.
abbrev pub SpelledInfo : Bytes → Read XvcInfo → Type 0
SpelledInfo total (ok i, d, later) = (behind : Bytes) × Begins total i (behind ++ arriving later)
SpelledInfo total (err e, d, later) = Unit
SpelledInfo total (panic, d, later) = Unit

info-SpelledInfo :
    (total : Bytes) (max : ℕ) (r : Read (XvcInfo × Bytes))
    → Parsed Info.parse total max r
    → SpelledInfo total (then_read r λ (frame, _) d' reader'. (ok frame, d', reader'))
info-SpelledInfo total max (ok (i, slice), d, later) (e, b) =
    let (line, cut, spells) = parse-eq-ok d.buf i slice e in
    (
      slice,
      (
        line,
        sym b.0 ∙ (ap (λ t. t ++ arriving later) cut ∙ append_assoc line _ (arriving later)),
        spells,
      ),
    )
info-SpelledInfo total max (err x, d, later) h = tt
info-SpelledInfo total max (panic, d, later) h = tt

pub read_xvc_info-SpelledInfo :
    (d : Decoder) (reader : List ReadEvent) → SpelledInfo (arriving reader) (read_xvc_info d reader)
unfolding read_xvc_info
read_xvc_info-SpelledInfo d reader =
    info-SpelledInfo (arriving reader) d.max_shift (run_loop Info.parse (clear d) reader)
      (run_loop-Parsed Info.parse (arriving reader) d.max_shift (clear d) reader (refl, refl))
