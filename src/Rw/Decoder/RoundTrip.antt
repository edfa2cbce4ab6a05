-- ===== src/Rw/Decoder/RoundTrip.antt =====
-- `Decoder::read_message` and `Decoder::read_xvc_info` on what was written.
use native.Mathlib.Decide.{dec_lt}
use xvc_rs.Prelude.{
  ℕ, suc, ◌+◌, ◌^◌, ◌-◌, ◌≤◌, ◌<◌, ◌≡◌, refl, ◌∙◌, ap, inl, inr, List, [], ◌∷◌, ◌++◌, append_assoc,
  append-nil, arith, Bytes, append-eq-nil, length_pos, length-append, ok, length, drop, drop_left,
  to_le_bytes, div_ceil, from_le_bytes-to_le_bytes, from_le_bytes, length-drop,
}
use xvc_rs.Protocol.{XvcCommand, Message}
use xvc_rs.Codec.Command
use xvc_rs.Codec.Command.{IsForeign-append, cmd_get_info, cmd_set_tck, cmd_shift}
use xvc_rs.Codec.SetTck
use xvc_rs.Codec.Shift
use xvc_rs.Codec.Shift.{Shift}
use xvc_rs.Rw.Write.{encode, IsWire}
use xvc_rs.Rw.Decoder.{Decoder, ReadEvent, Read, drain, parse_loop, read_message, read_payload}
use xvc_rs.Rw.Decoder.Loop.{Arrive, arriving, holding, Reads, Waits, Found, parse_loop-Found}

module _ (mb ms : ℕ) where
  Command-Reads : (c : XvcCommand) → Reads mb ms Command.parse (Command.name c) c
  Command-Reads c rest = Command.parse-name c rest

  Command-Waits : (c : XvcCommand) → Waits mb ms Command.parse (Command.name c) c
  Command-Waits c s q e ne = elim (Command.parse-cases s) [
    | inl (c', r, p) ↦
        let whole : Command.name c ++ [] ≡ Command.name c' ++ (r ++ q) =
          append-nil _ ∙ (e ∙ (ap (λ t. t ++ q) p ∙ append_assoc (Command.name c') r q)) in
        absurd (
          ne (
            append-eq-nil r q (
              cc
                (Command.parse-name c [], ap Command.parse whole, Command.parse-name c' (r ++ q)))))
    | inr (inl (w, _)) ↦ (s, w)
    | inr (inr f) ↦
        let refused = Command.parse-IsForeign (s ++ q) (IsForeign-append s q f) in
        cc (refused, ap Command.parse (append-nil (Command.name c) ∙ e), Command.parse-name c [])
  ]

  SetTck-Reads : (p : ℕ) → p < 2 ^ 32 → Reads mb ms SetTck.parse (to_le_bytes p) p
  SetTck-Reads p h rest = SetTck.parse-to_le_bytes p rest h

  SetTck-Waits : (p : ℕ) → Waits mb ms SetTck.parse (to_le_bytes p) p
  SetTck-Waits p s q e ne =
      (s, SetTck.parse_short s (omega (arith, ap length e, length-append {0} s q, length_pos q ne)))

-- The first four bytes of a text.
heads :
    (n : ℕ) (x : Bytes) (a b c d : ℕ) (y : Bytes)
    → n < 2 ^ 32
    → to_le_bytes n ++ x ≡ a ∷ b ∷ c ∷ d ∷ y
    → (from_le_bytes a b c d ≡ n) × (x ≡ y)
heads n x a b c d y h e = (ground (arith, from_le_bytes-to_le_bytes n h), cc)

-- The fields of a shift, as they stand behind the command.
abbrev fields : ℕ → Bytes → Bytes → Bytes
fields n tms tdi = to_le_bytes n ++ (tms ++ tdi)

abbrev shift_of : ℕ → Bytes → Bytes → Shift
shift_of n tms tdi = record { num_bits = n; tdi = tdi; tms = tms }

module _ (mb ms n : ℕ) (tms tdi : Bytes) (w : IsWire ms (Message.shift n tms tdi)) where
  Shift-Reads : Reads mb ms (Shift.parse ms) (fields n tms tdi) (shift_of n tms tdi)
  Shift-Reads rest =
      ap (λ t. Shift.parse ms (to_le_bytes n ++ t)) (append_assoc tms tdi rest)
      ∙ Shift.parse-to_le_bytes ms n tms tdi rest w.0 w.1 w.2 w.3

  Shift-Waits : Waits mb ms (Shift.parse ms) (fields n tms tdi) (shift_of n tms tdi)
  Shift-Waits (a ∷ b ∷ c ∷ d ∷ r) q e ne =
      let (bits, tail) = heads n (tms ++ tdi) a b c d (r ++ q) w.0 e in
      let k : div_ceil (from_le_bytes a b c d) 8 ≡ div_ceil n 8 = ap (λ t. div_ceil t 8) bits in
      let short : length r < div_ceil n 8 + div_ceil n 8 = omega (
        arith,
        ap length tail,
        length-append {0} tms tdi,
        length-append {0} r q,
        length_pos q ne,
        w.1,
        w.2,
      ) in
      elim (dec_lt (length r) (div_ceil (from_le_bytes a b c d) 8)) [
        | yes no_tms ↦ (r, Shift.parse_no_tms ms a b c d r (omega (arith, k, w.3)) no_tms)
        | no tms_there ↦ (
          drop (div_ceil (from_le_bytes a b c d) 8) r,
          Shift.parse_no_tdi ms a b c d r (omega (arith, k, w.3)) (omega arith)
              (omega (arith, length-drop {0} (div_ceil (from_le_bytes a b c d) 8) r, k)),
        )
      ]
  Shift-Waits s q e ne = (s, Shift.parse_short ms s (omega arith))

-- What `read_message` comes to: the message, and of the bytes behind it those still to be read.
-- The others, `lost`, were read into the buffer, which the next call clears.
abbrev pub Returns : Message → Bytes → Read Message → Type 0
Returns m rest result =
    (d : Decoder) × (later : List ReadEvent) × (lost : Bytes) × (result ≡ (ok m, d, later))
    × (lost ++ arriving later ≡ rest)
    × Arrive later

module _ (mb ms : ℕ) (rest : Bytes) where
  drain_name : (t r : Bytes) → drain (holding mb ms (t ++ r)) r ≡ holding mb ms r
  drain_name t r =
      let e : length (t ++ r) - length r ≡ length t = omega (arith, length-append {0} t r) in
      rw e (rw (drop_left t r))

  set_tck-Returns :
      (p : ℕ) (r : Bytes) (reader : List ReadEvent)
      → p < 2 ^ 32
      → Arrive reader
      → r ++ arriving reader ≡ to_le_bytes p ++ rest
      → length (to_le_bytes p ++ rest) ≤ mb
      → Returns (Message.set_tck p) rest (read_payload XvcCommand.set_tck (holding mb ms r) reader)
  unfolding read_payload
  set_tck-Returns p r reader w h j fits =
      let (r', later, found, joins, arrive) =
        parse_loop-Found mb ms SetTck.parse (to_le_bytes p) p (SetTck-Reads mb ms p w)
          (SetTck-Waits mb ms p) rest (suc (length reader)) r reader (omega arith) h j fits in
      (holding mb ms (to_le_bytes p ++ r'), later, r', rw found, joins, arrive)

  shift-Returns :
      (n : ℕ) (tms tdi r : Bytes) (reader : List ReadEvent)
      → IsWire ms (Message.shift n tms tdi)
      → Arrive reader
      → r ++ arriving reader ≡ fields n tms tdi ++ rest
      → length (fields n tms tdi ++ rest) ≤ mb
      → Returns
          (Message.shift n tms tdi)
          rest
          (read_payload XvcCommand.shift (holding mb ms r) reader)
  unfolding read_payload
  shift-Returns n tms tdi r reader w h j fits =
      let (r', later, found, joins, arrive) =
        parse_loop-Found mb ms (Shift.parse ms) (fields n tms tdi) (shift_of n tms tdi)
          (Shift-Reads mb ms n tms tdi w) (Shift-Waits mb ms n tms tdi w) rest (suc (length reader))
          r reader (omega arith) h j fits in
      (holding mb ms (fields n tms tdi ++ r'), later, r', rw found, joins, arrive)

  -- The loop for the command, and the payload behind it.
  command-Found :
      (c : XvcCommand) (payload : Bytes) (reader : List ReadEvent)
      → Arrive reader
      → arriving reader ≡ Command.name c ++ payload
      → length (Command.name c ++ payload) ≤ mb
      → Found mb ms Command.parse
          (Command.name c)
          c
          payload
          (parse_loop Command.parse (suc (length reader)) (holding mb ms []) reader)
  command-Found c payload reader h j fits =
      parse_loop-Found mb ms Command.parse (Command.name c) c (Command-Reads mb ms c)
        (Command-Waits mb ms c) payload (suc (length reader)) [] reader (omega arith) h j fits

-- If a reader's reads, non-empty, of at most 1024 bytes each and with interruptions between them,
-- bring an encoded message that fits the protocol and the decoder's limit and some bytes behind it,
-- and all that fits the decoder's buffer, then `read_message` returns that message. The bytes behind
-- it are still to be read, but for those at their front that were read into the buffer with the
-- message.
pub read_message-encode :
    (d : Decoder) (m : Message) (rest : Bytes) (reader : List ReadEvent)
    → IsWire d.max_shift m
    → Arrive reader
    → arriving reader ≡ encode m ++ rest
    → length (encode m ++ rest) ≤ d.max_buf
    → Returns m rest (read_message d reader)
unfolding read_message encode
read_message-encode d Message.get_info rest reader w h j fits =
    let (r, later, found, joins, arrive) =
      command-Found d.max_buf d.max_shift rest XvcCommand.get_info rest reader h j fits in
    (
      drain (holding d.max_buf d.max_shift (cmd_get_info ++ r)) r,
      later,
      r,
      rw found (unfold read_payload in refl),
      joins,
      arrive,
    )
read_message-encode d (Message.set_tck p) rest reader w h j fits =
    let (r, later, found, joins, arrive) =
      command-Found d.max_buf d.max_shift rest XvcCommand.set_tck (to_le_bytes p ++ rest) reader h j
        fits in
    rw found (
      rw (drain_name d.max_buf d.max_shift rest cmd_set_tck r)
        (set_tck-Returns d.max_buf d.max_shift rest p r later w arrive joins (omega (arith, fits))))
read_message-encode d (Message.shift n tms tdi) rest reader w h j fits =
    let (r, later, found, joins, arrive) =
      command-Found d.max_buf d.max_shift rest XvcCommand.shift (fields n tms tdi ++ rest) reader h
        j fits in
    rw found (
      rw (drain_name d.max_buf d.max_shift rest cmd_shift r) (
        shift-Returns d.max_buf d.max_shift rest n tms tdi r later w arrive joins
          (omega (arith, fits))))
