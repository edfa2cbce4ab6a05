-- ===== src/Server/Session/Serve.antt =====
-- `handle_client` against a server that is handed whole messages.
use xvc_rs.Prelude.{
  ℕ, zero, suc, ◌<◌, ◌≡◌, refl, some, Option, List, [], ◌∷◌, ◌++◌, arith, Bytes, All, AllU8,
  AreChunks, joined, Outcome, ok, err, panic, length,
}
use xvc_rs.Errors.{IoError, ReadError, io_error}
use xvc_rs.Protocol.{Message}
use xvc_rs.Rw.Write.{encode, IsWire, Writer}
use xvc_rs.TokioCodec.Buffer.{Buffer}
use xvc_rs.Server.{XvcServer, Config}
use xvc_rs.Server.Respond.{compute_response}
use xvc_rs.Server.Session.{Ended, send, reply, handle, handle_client}
use xvc_rs.Server.Session.Stream.{arrivals, read_message-chunks, IsPart, read_message-IsPart}

-- What a client sends for a list of messages.
abbrev pub stream : List Message → Bytes → Bytes
stream [] part = part
stream (m ∷ ms) part = encode m ++ stream ms part

abbrev pub AreWire : ℕ → List Message → Type 0
AreWire max = All (λ m. IsWire max m × AllU8 (encode m))

module _ {H E W : Type 0} (server : XvcServer H E) (writer : Writer W) (config : Config) where
  open writer use {write_all}

  unfoldable pub written : Outcome IoError W → H → W → (H → W → Ended H W) → Ended H W
  written (ok w') h w next = next h w'
  written (err e) h w next = record { result = err (io_error e); hardware = h; output = w }
  written panic h w next = record { result = panic; hardware = h; output = w }

  unfoldable pub answer : Outcome ReadError Bytes × H → W → (H → W → Ended H W) → Ended H W
  answer (ok response, h) w next = written (write_all response w) h w next
  answer (err e, h) w next = record { result = err e; hardware = h; output = w }
  answer (panic, h) w next = record { result = panic; hardware = h; output = w }

  -- Each message is answered, in order, until one cannot be.
  unfoldable pub serve_all : List Message → H → W → Ended H W
  unfolding answer written
  serve_all [] h w = record { result = ok tt; hardware = h; output = w }
  serve_all (m ∷ ms) h w = answer (compute_response server config m h) w (serve_all ms)

module _ (b : Buffer) {H E W : Type 0} (server : XvcServer H E) (writer : Writer W)
    (config : Config) where
  send-written :
      (r : Outcome IoError W) (h : H) (w : W) (next : H → W → Option (Ended H W))
      (rest : H → W → Ended H W)
      → ((h : H) (w : W) → next h w ≡ some (rest h w))
      → send b server writer config r h w next ≡ some (written server writer config r h w rest)
  unfolding send written
  send-written (ok w') h w next rest e = e h w'
  send-written (err _) h w next rest e = refl
  send-written panic h w next rest e = refl

  reply-answer :
      (r : Outcome ReadError Bytes × H) (w : W) (next : H → W → Option (Ended H W))
      (rest : H → W → Ended H W)
      → ((h : H) (w : W) → next h w ≡ some (rest h w))
      → reply b server writer config r w next ≡ some (answer server writer config r w rest)
  unfolding reply answer
  reply-answer (ok response, h) w next rest e = send-written _ h w next rest e
  reply-answer (err _, h) w next rest e = refl
  reply-answer (panic, h) w next rest e = refl

  -- Let a client send a list of messages that fit the protocol and the configured limit (all bytes
  -- below 256) and behind them a proper part of one more such message, and let these bytes be in the
  -- buffer and in non-empty reads, cut in any way, with the end of the connection behind them. Then
  -- `handle_client`, with more fuel than there are messages, ends as `serve_all` does, which is
  -- handed the messages one by one: the same result, the same hardware and the same output.
  pub handle_client-serve_all :
      (ms : List Message) (part : Bytes) (chunks : List Bytes) (buf : Bytes) (fuel : ℕ) (h : H)
      (w : W)
      → AreWire config.max_vector_size ms
      → IsPart b config.max_vector_size part
      → AreChunks chunks
      → buf ++ joined chunks ≡ stream ms part
      → length ms < fuel
      → handle_client b server writer config fuel (arrivals chunks) buf h w
        ≡ some (serve_all server writer config ms h w)
  unfolding handle_client serve_all handle
  handle_client-serve_all ms part chunks buf zero h w ws p cs e f = absurd (omega arith)
  handle_client-serve_all [] part chunks buf (suc fuel) h w ws p cs e f =
      rw (read_message-IsPart b config.max_vector_size part chunks buf p cs e)
  handle_client-serve_all (m ∷ ms) part chunks buf (suc fuel) h w ((wire, u8), ws) p cs e f =
      let (buf', chunks', read, joins, are) =
        read_message-chunks b config.max_vector_size m (stream ms part) chunks buf wire u8 cs e in
      rw read (
        reply-answer (compute_response server config m h) w _ _ (λ h' w'.
          handle_client-serve_all ms part chunks' buf' fuel h' w' ws p are joins (omega arith)))
