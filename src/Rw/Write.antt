-- ===== src/Rw/Write.antt =====
-- `Message::write_to` and `XvcInfo::write_to` of xvc-protocol/src/rw.rs.
use xvc_rs.Prelude.{
  ℕ, ◌≤◌, ◌<◌, ◌^◌, ◌≡◌, refl, ◌++◌, Bytes, codes, Outcome, ok, ◌>>=◌, to_le_bytes, append_assoc,
  length, div_ceil,
}
use xvc_rs.Text.{decimal}
use xvc_rs.Errors.{IoError}
use xvc_rs.Protocol.{Version, Message, XvcInfo}
use xvc_rs.Codec.Command.{cmd_get_info, cmd_set_tck, cmd_shift}

-- `impl Write`: a writer in state `S`.
pub record Writer {ℓ} (S : Type ℓ) : Type ℓ where
  pub write_all : Bytes → S → Outcome IoError S

-- `impl Write for Vec<u8>`
abbrev pub vec_writer : Writer Bytes
vec_writer = record { write_all = λ bytes out. ok (out ++ bytes) }

unfoldable pub write_to {ℓ} : {S : Type ℓ} → Writer S → Message → S → Outcome IoError S
write_to w Message.get_info out = w.write_all cmd_get_info out
write_to w (Message.set_tck period_in_ns) out = do
  out' ← w.write_all cmd_set_tck out
  w.write_all (to_le_bytes period_in_ns) out'
write_to w (Message.shift num_bits tms tdi) out = do
  out₁ ← w.write_all cmd_shift out
  out₂ ← w.write_all (to_le_bytes num_bits) out₁
  out₃ ← w.write_all tms out₂
  w.write_all tdi out₃

-- `impl Display for Version`
unfoldable pub show_version : Version → Bytes
show_version v = decimal v.major ++ (codes "." ++ decimal v.minor)

-- The line of `XvcInfo::write_to`, its newline included.
unfoldable pub info_line : XvcInfo → Bytes
unfolding show_version
info_line i =
    codes "xvcServer_v"
    ++ (show_version i.version ++ (codes ":" ++ (decimal i.max_vector_len ++ codes "\n")))

-- One `write_all` for the line, where `writeln!` may make several.
unfoldable pub write_info {ℓ} : {S : Type ℓ} → Writer S → XvcInfo → S → Outcome IoError S
write_info w i out = w.write_all (info_line i) out

-- The wire format: the command, and its fields in little-endian order behind it.
unfoldable pub encode : Message → Bytes
encode Message.get_info = cmd_get_info
encode (Message.set_tck p) = cmd_set_tck ++ to_le_bytes p
encode (Message.shift n tms tdi) = cmd_shift ++ (to_le_bytes n ++ (tms ++ tdi))

-- What the protocol can carry with vectors of at most `max` bytes.
abbrev pub IsWire : ℕ → Message → Type 0
IsWire max Message.get_info = Unit {0}
IsWire max (Message.set_tck p) = p < 2 ^ 32
IsWire max (Message.shift n tms tdi) =
    (n < 2 ^ 32) × (length tms ≡ div_ceil n 8) × (length tdi ≡ div_ceil n 8) × (div_ceil n 8 ≤ max)

-- For every message, `write_to` into a vector succeeds and appends the message's wire format: the
-- command, and its fields in little-endian order.
pub write_to-encode : (m : Message) (out : Bytes) → write_to vec_writer m out ≡ ok (out ++ encode m)
unfolding write_to encode
write_to-encode Message.get_info out = refl
write_to-encode (Message.set_tck p) out = simp append_assoc
write_to-encode (Message.shift n tms tdi) out = simp append_assoc
