-- ===== src/Server/Session.antt =====
-- `read_message` and `handle_client` of xvc-server/src/server.rs: one client's connection.
pub mod Stream
pub mod Serve
pub mod Total
use xvc_rs.Prelude.{
  ℕ, zero, suc, Option, none, some, List, [], ◌∷◌, ◌++◌, ◌==◌, if◌then◌else◌, Bytes, Outcome, ok,
  err, panic, length,
}
use xvc_rs.Errors.{IoError, ReadError, io_error}
use xvc_rs.Protocol.{Message}
use xvc_rs.Rw.Write.{Writer}
use xvc_rs.TokioCodec.Buffer.{Buffer}
use xvc_rs.TokioCodec.MessageDecoder
use xvc_rs.TokioCodec.MessageDecoder.{Decoded}
use xvc_rs.Server.{XvcServer, Config}
use xvc_rs.Server.Respond.{compute_response}

-- What one call of `timeout(rw_timeout, read.read_buf(buf))` comes to. A connection is the list of
-- these; behind its last one the peer has closed it, and a read gives no byte.
pub data ReadEvent : Type 0 where
  received : Bytes → ReadEvent
  failed : IoError → ReadEvent
  elapsed : ReadEvent

-- The result of `read_message`, the buffer after it, and what is still to come.
abbrev pub Reading : Type 0
Reading = Outcome ReadError (Option Message) × Bytes × List ReadEvent

-- `if let Some(msg) = decoder.decode(buf)? { return Ok(Some(msg)) }`, or else a read.
unfoldable pub or_read : Decoded Message → List ReadEvent → (Bytes → Reading) → Reading
or_read (ok (some msg), buf) events read = (ok (some msg), buf, events)
or_read (ok none, buf) events read = read buf
or_read (err e, buf) events read = (err e, buf, events)
or_read (panic, buf) events read = (panic, buf, events)

module _ (b : Buffer) (max_shift : ℕ) where
  unfoldable pub read_message : List ReadEvent → Bytes → Reading
  unfolding or_read
  read_message [] buf =
      or_read (MessageDecoder.decode b max_shift buf) [] (λ buf'. (ok none, buf', []))
  read_message (received s ∷ events) buf =
      or_read (MessageDecoder.decode b max_shift buf) (received s ∷ events) (λ buf'.
        let more = read_message events (buf' ++ s) in
        if length s == 0 then (ok none, buf', events) else more)
  read_message (failed e ∷ events) buf =
      or_read (MessageDecoder.decode b max_shift buf) (failed e ∷ events)
        (λ buf'. (err (io_error e), buf', events))
  read_message (elapsed ∷ events) buf =
      or_read (MessageDecoder.decode b max_shift buf) (elapsed ∷ events)
        (λ buf'. (ok none, buf', events))

-- How a connection ends: the result of `handle_client`, the hardware, and the writer.
pub record Ended (H W : Type 0) : Type 0 where
  pub result : Outcome ReadError (Unit {0})
  pub hardware : H
  pub output : W

module _ (b : Buffer) {H E W : Type 0} (server : XvcServer H E) (writer : Writer W)
    (config : Config) where
  open writer use {write_all}

  -- `write_half.write_all(&response).await?`, then the loop goes on by `next`.
  unfoldable pub send :
      Outcome IoError W → H → W → (H → W → Option (Ended H W)) → Option (Ended H W)
  send (ok w') h w next = next h w'
  send (err e) h w next = some (record { result = err (io_error e); hardware = h; output = w })
  send panic h w next = some (record { result = panic; hardware = h; output = w })

  -- `compute_response(…)?` and the write.
  unfoldable pub reply :
      Outcome ReadError Bytes × H → W → (H → W → Option (Ended H W)) → Option (Ended H W)
  unfolding send
  reply (ok response, h) w next = send (write_all response w) h w next
  reply (err e, h) w next = some (record { result = err e; hardware = h; output = w })
  reply (panic, h) w next = some (record { result = panic; hardware = h; output = w })

  -- `match read_message(…)`
  unfoldable pub handle :
      Reading → H → W → (List ReadEvent → Bytes → H → W → Option (Ended H W)) → Option (Ended H W)
  unfolding reply
  handle (ok (some msg), buf, events) h w next =
      reply (compute_response server config msg h) w (next events buf)
  handle (ok none, buf, events) h w next =
      some (record { result = ok tt; hardware = h; output = w })
  handle (err e, buf, events) h w next = some (record { result = err e; hardware = h; output = w })
  handle (panic, buf, events) h w next = some (record { result = panic; hardware = h; output = w })

  -- `none` means that the fuel, one unit for each message, ran out.
  unfoldable pub handle_client : ℕ → List ReadEvent → Bytes → H → W → Option (Ended H W)
  unfolding handle
  handle_client zero events buf h w = none
  handle_client (suc fuel) events buf h w =
      handle (read_message b config.max_vector_size events buf) h w (handle_client fuel)
