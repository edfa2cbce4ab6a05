-- ===== src/Server.antt =====
-- xvc-server/src/lib.rs, the interface of a backend, and the configuration in xvc-server/src/server.rs.
pub mod Builder
pub mod Respond
pub mod Session
pub mod Listen
use xvc_rs.Prelude.{ℕ, ◌*◌, ◌^◌, ◌≡◌, Bytes, Outcome, length}

-- `trait XvcServer` for a backend whose hardware is in a state `H` and whose errors are `E`.
-- `shift` is given `tdo` and returns it as it leaves it; a `&mut [u8]` keeps its length.
pub record XvcServer (H E : Type 0) : Type 0 where
  pub set_tck : ℕ → H → Outcome E ℕ × H
  -- `num_bits`, `tms`, `tdi`, `tdo`
  pub shift : ℕ → Bytes → Bytes → Bytes → H → Outcome E (Unit {0}) × Bytes × H
  pub length-shift :
      (num_bits : ℕ) (tms tdi tdo : Bytes) (h : H)
      → length (shift num_bits tms tdi tdo h).1 ≡ length tdo

-- `Config`; the timeout is in nanoseconds.
pub record Config : Type 0 where
  pub max_vector_size : ℕ
  pub read_write_timeout : ℕ

abbrev pub default_config : Config
default_config = record { max_vector_size = 10 * 1024 * 1024; read_write_timeout = 30 * 10 ^ 9 }

-- `std::net::SocketAddr`; the address is its octets.
pub record SocketAddr : Type 0 where
  pub ip : Bytes
  pub port : ℕ
