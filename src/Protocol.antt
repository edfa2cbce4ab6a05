-- ===== src/Protocol.antt =====
-- xvc-protocol/src/protocol.rs: the data of the protocol.
use xvc_rs.Prelude.{ℕ, ◌*◌, Bytes, Bool, ◌&&◌, ◌||◌, ◌==◌, ltb}

-- `Version`; a component is a `usize`, 64 bits wide.
pub record Version : Type 0 where
  pub major : ℕ
  pub minor : ℕ

-- `v < w` by the derived `Ord`: the fields in their order.
abbrev pub version_lt : Version → Version → Bool
version_lt v w = ltb v.major w.major || v.major == w.major && ltb v.minor w.minor

abbrev pub v1_0 : Version
v1_0 = record { major = 1; minor = 0 }

-- `Message`, owned or borrowed alike.
pub data Message : Type 0 where
  get_info : Message
  -- the period in nanoseconds
  set_tck : ℕ → Message
  -- `num_bits`, `tms`, `tdi`
  shift : ℕ → Bytes → Bytes → Message

pub record XvcInfo : Type 0 where
  pub version : Version
  pub max_vector_len : ℕ

-- `XvcInfo::default`
abbrev pub default_info : XvcInfo
default_info = record { version = v1_0; max_vector_len = 10 * 1024 * 1024 }

pub data XvcCommand : Type 0 where
  get_info set_tck shift : XvcCommand

-- `Message::borrow`: owned and borrowed vectors are the same bytes here.
unfoldable pub borrow : Message → Message
borrow Message.get_info = Message.get_info
borrow (Message.set_tck period_ns) = Message.set_tck period_ns
borrow (Message.shift num_bits tms tdi) = Message.shift num_bits tms tdi
