-- ===== src/Client.antt =====
-- xvc-client/src/lib.rs: the client's requests over one connection.
pub mod Info
pub mod EndToEnd
use xvc_rs.Prelude.{
  ℕ, ◌+◌, ◌≡◌, ◌&&◌, Option, none, some, List, [], ◌∷◌, ◌++◌, map, All, ◌≢◌, ◌==◌, if◌then◌else◌,
  Bytes, AreChunks, joined, codes, Outcome, ok, err, panic, ◌>>=◌, ◌>>◌, assert, map_err, length,
  div_ceil, from_le_bytes,
}
use xvc_rs.Errors.{IoError, ReadError, io_error, unexpected_eof}
use xvc_rs.Protocol.{Message, XvcInfo}
use xvc_rs.Rw.Write.{Writer, vec_writer, write_to}
use xvc_rs.TokioCodec.Buffer.{Buffer}
use xvc_rs.TokioCodec.XvcInfoDecoder
use xvc_rs.TokioCodec.MessageDecoder.{Decoded}

-- What one read of the connection comes to; behind the last of these the server has closed it.
pub data Incoming : Type 0 where
  received : Bytes → Incoming
  failed : IoError → Incoming

-- `AsyncReadExt::read_exact` of tokio. Its documentation: it fills the buffer, with the bytes that
-- come next and no more; so what a run of non-empty reads brings is taken from their front.
pub record ExactReader : Type 0 where
  pub read_exact : ℕ → List Incoming → Outcome IoError Bytes × List Incoming
  pub read_exact-joined :
      (p rest : Bytes) (chunks : List Bytes)
      → AreChunks chunks
      → joined chunks ≡ p ++ rest
      → (chunks' : List Bytes) × (read_exact (length p) (map received chunks)
          ≡ (ok p, map received chunks'))
        × (joined chunks' ≡ rest)

abbrev pub closed : IoError
closed = record {
  kind = unexpected_eof;
  message = codes "connection closed while reading server info";
}

-- `msg.write_to(&mut buf)?` and `self.tcp.write_all(&buf).await?`
unfoldable pub write_message : {W : Type 0} → Writer W → Message → W → Outcome ReadError W
write_message writer msg w = do
  buf ← map_err io_error (write_to vec_writer msg [])
  map_err io_error (writer.write_all buf w)

module _ (b : Buffer) where
  unfoldable pub or_read :
      Decoded XvcInfo → (Bytes → Outcome ReadError XvcInfo) → Outcome ReadError XvcInfo
  or_read (ok (some info), buf) read = ok info
  or_read (ok none, buf) read = read buf
  or_read (err e, buf) read = err e
  or_read (panic, buf) read = panic

  -- The loop of `get_info`; its buffer, and what it has read beyond the line, is given up.
  unfoldable pub read_info : List Incoming → Bytes → Outcome ReadError XvcInfo
  unfolding or_read
  read_info [] buf = or_read (XvcInfoDecoder.decode b buf) (λ _. err (io_error closed))
  read_info (received s ∷ incoming) buf = or_read (XvcInfoDecoder.decode b buf) (λ buf'.
      let more = read_info incoming (buf' ++ s) in
      if length s == 0 then err (io_error closed) else more)
  read_info (failed e ∷ incoming) buf =
      or_read (XvcInfoDecoder.decode b buf) (λ _. err (io_error e))

  unfoldable pub get_info :
      {W : Type 0} → Writer W → List Incoming → W → Outcome ReadError (XvcInfo × W)
  unfolding read_info
  get_info writer incoming w = do
    w' ← write_message writer Message.get_info w
    info ← read_info incoming []
    ok (info, w')

-- `u32::from_le_bytes(buf)`, for a buffer of four bytes.
unfoldable pub period_of : Bytes → Outcome ReadError ℕ
period_of (b₀ ∷ b₁ ∷ b₂ ∷ b₃ ∷ []) = ok (from_le_bytes b₀ b₁ b₂ b₃)
period_of _ = panic

module _ (reader : ExactReader) {W : Type 0} (writer : Writer W) where
  open reader use {read_exact}

  unfoldable pub set_tck : ℕ → List Incoming → W → Outcome ReadError (ℕ × W)
  set_tck period_ns incoming w = do
    w' ← write_message writer (Message.set_tck period_ns) w
    buf ← map_err io_error (read_exact 4 incoming).0
    period ← period_of buf
    ok (period, w')

  unfoldable pub shift : ℕ → Bytes → Bytes → List Incoming → W → Outcome ReadError (Bytes × W)
  shift num_bits tms tdi incoming w = do
    let num_bytes = div_ceil num_bits 8
    assert (length tms == num_bytes && length tdi == num_bytes)
    w' ← write_message writer (Message.shift num_bits tms tdi) w
    buf ← map_err io_error (read_exact num_bytes incoming).0
    ok (buf, w')
