-- ===== src/Codec/Command.antt =====
-- `XvcCommand::parse` of xvc-protocol/src/codec.rs.
use xvc_rs.Prelude.{
  ℕ, ◌≡◌, ◌⊎◌, inl, inr, ◌||◌, ◌++◌, arith, Bytes, codes, ok, err, ◌>>=◌, true, false, length, drop,
  slice_from, starts_with, if◌then◌else◌, starts_with→append, starts_with-append, starts_with_left,
  le→leb, length-starts_with, ◌≤◌, Bool-cases,
}
use xvc_rs.Errors.{incomplete, ParseErr}
use xvc_rs.Protocol.{XvcCommand}
use xvc_rs.Codec.Parser.{Parser, commit}

abbrev pub cmd_get_info : Bytes
cmd_get_info = codes "getinfo:"

abbrev pub cmd_set_tck : Bytes
cmd_set_tck = codes "settck:"

abbrev pub cmd_shift : Bytes
cmd_shift = codes "shift:"

-- `*buf = &buf[n..]; Ok(cmd)`
abbrev accept : XvcCommand → ℕ → Parser XvcCommand
accept cmd n buf = commit buf (slice_from n buf >>= λ r. ok (cmd, r))

unfoldable pub parse : Parser XvcCommand
parse buf =
    if starts_with buf cmd_get_info
    then accept XvcCommand.get_info (length cmd_get_info) buf
    else if starts_with buf cmd_set_tck
    then accept XvcCommand.set_tck (length cmd_set_tck) buf
    else if starts_with buf cmd_shift
    then accept XvcCommand.shift (length cmd_shift) buf
    else if starts_with cmd_get_info buf || starts_with cmd_set_tck buf || starts_with cmd_shift buf
    then (err incomplete, buf)
    else (err (ParseErr.invalid_command buf), buf)

-- The bytes that stand for a command.
abbrev pub name : XvcCommand → Bytes
name XvcCommand.get_info = cmd_get_info
name XvcCommand.set_tck = cmd_set_tck
name XvcCommand.shift = cmd_shift

pub parse-name : (c : XvcCommand) (r : Bytes) → parse (name c ++ r) ≡ (ok c, r)
unfolding parse
parse-name XvcCommand.get_info r = rw (le→leb 8 (length (cmd_get_info ++ r)) (omega arith))
parse-name XvcCommand.set_tck r = rw (le→leb 7 (length (cmd_set_tck ++ r)) (omega arith))
parse-name XvcCommand.shift r = rw (le→leb 6 (length (cmd_shift ++ r)) (omega arith))

-- Neither text is a prefix of the other.
abbrev Differ : Bytes → Bytes → Type 0
Differ s p = (starts_with s p ≡ false) × (starts_with p s ≡ false)

Differ-append : (s q p : Bytes) → Differ s p → Differ (s ++ q) p
Differ-append s q p d = ground (arith, d.0, d.1, starts_with-append s q p, starts_with_left p s q)

-- No command can be read off `s`, however it goes on.
abbrev pub IsForeign : Bytes → Type 0
IsForeign s = Differ s cmd_get_info × Differ s cmd_set_tck × Differ s cmd_shift

pub IsForeign-append : (s q : Bytes) → IsForeign s → IsForeign (s ++ q)
IsForeign-append s q (a, b, c) =
    (Differ-append s q _ a, Differ-append s q _ b, Differ-append s q _ c)

pub parse-IsForeign : (s : Bytes) → IsForeign s → parse s ≡ (err (ParseErr.invalid_command s), s)
unfolding parse
parse-IsForeign s ((a, a'), (b, b'), (c, c')) = rw (a, b, c, a', b', c')

-- `s` is cut off within a command.
abbrev pub IsOpening : Bytes → Type 0
IsOpening s = (c : XvcCommand) × (starts_with (name c) s ≡ true)

pub length-IsOpening : (s : Bytes) → IsOpening s → length s ≤ 8
length-IsOpening s (XvcCommand.get_info, h) = length-starts_with cmd_get_info s h
length-IsOpening s (XvcCommand.set_tck, h) = omega (arith, length-starts_with cmd_set_tck s h)
length-IsOpening s (XvcCommand.shift, h) = omega (arith, length-starts_with cmd_shift s h)

IsOpening-or_IsForeign :
    (s : Bytes)
    → starts_with s cmd_get_info ≡ false
    → starts_with s cmd_set_tck ≡ false
    → starts_with s cmd_shift ≡ false
    → ((parse s ≡ (err incomplete, s)) × IsOpening s) ⊎ IsForeign s
unfolding parse
IsOpening-or_IsForeign s a b c = elim (Bool-cases (starts_with cmd_get_info s)) [
  | inl e ↦ inl (rw (a, b, c, e), (XvcCommand.get_info, e))
  | inr a' ↦ elim (Bool-cases (starts_with cmd_set_tck s)) [
    | inl e ↦ inl (rw (a, b, c, a', e), (XvcCommand.set_tck, e))
    | inr b' ↦ elim (Bool-cases (starts_with cmd_shift s)) [
      | inl e ↦ inl (rw (a, b, c, a', b', e), (XvcCommand.shift, e))
      | inr c' ↦ inr ((a, a'), (b, b'), (c, c'))
    ]
  ]
]

-- Every buffer begins with a command, is cut off within one, or is refused.
pub parse-cases :
    (s : Bytes)
    → ((c : XvcCommand) × (r : Bytes) × (s ≡ name c ++ r))
      ⊎ (((parse s ≡ (err incomplete, s)) × IsOpening s) ⊎ IsForeign s)
unfolding parse
parse-cases s = elim (Bool-cases (starts_with s cmd_get_info)) [
  | inl e ↦ inl (XvcCommand.get_info, drop 8 s, starts_with→append s cmd_get_info e)
  | inr a ↦ elim (Bool-cases (starts_with s cmd_set_tck)) [
    | inl e ↦ inl (XvcCommand.set_tck, drop 7 s, starts_with→append s cmd_set_tck e)
    | inr b ↦ elim (Bool-cases (starts_with s cmd_shift)) [
      | inl e ↦ inl (XvcCommand.shift, drop 6 s, starts_with→append s cmd_shift e)
      | inr c ↦ inr (IsOpening-or_IsForeign s a b c)
    ]
  ]
]
