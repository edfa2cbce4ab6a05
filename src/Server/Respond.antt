-- ===== src/Server/Respond.antt =====
-- `compute_response` of xvc-server/src/server.rs.
use xvc_rs.Prelude.{ℕ, [], Bytes, Outcome, ok, err, panic, map_err, length, replicate, to_le_bytes}
use xvc_rs.Errors.{ReadError, io_error}
use xvc_rs.Protocol.{Message, XvcInfo, v1_0}
use xvc_rs.Rw.Write.{write_info, vec_writer}
use xvc_rs.Server.{XvcServer, Config}

module _ {H E : Type 0} (server : XvcServer H E) where
  open server use {set_tck, shift}

  -- `match server.set_tck(period_ns)`: an error echoes the requested period.
  unfoldable pub tck_reply : ℕ → Outcome E ℕ × H → Outcome ReadError Bytes × H
  tck_reply period_ns (ok ret_period, h) = (ok (to_le_bytes ret_period), h)
  tck_reply period_ns (err e, h) = (ok (to_le_bytes period_ns), h)
  tck_reply period_ns (panic, h) = (panic, h)

  -- `match server.shift(…)`: after an error the buffer is sent as the backend left it.
  unfoldable pub shift_reply : Outcome E (Unit {0}) × Bytes × H → Outcome ReadError Bytes × H
  shift_reply (ok _, buf, h) = (ok buf, h)
  shift_reply (err e, buf, h) = (ok buf, h)
  shift_reply (panic, buf, h) = (panic, h)

  unfoldable pub compute_response : Config → Message → H → Outcome ReadError Bytes × H
  unfolding tck_reply shift_reply
  compute_response config Message.get_info h =
      let info : XvcInfo = record { version = v1_0; max_vector_len = config.max_vector_size } in
      (map_err io_error (write_info vec_writer info []), h)
  compute_response config (Message.set_tck period_ns) h = tck_reply period_ns (set_tck period_ns h)
  compute_response config (Message.shift num_bits tms tdi) h =
      shift_reply (shift num_bits tms tdi (replicate (length tdi) 0) h)
