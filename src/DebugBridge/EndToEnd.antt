-- ===== src/DebugBridge/EndToEnd.antt =====
-- A client, the server, and the memory-mapped backend behind it (xvc-client/src/lib.rs,
-- xvc-server/src/server.rs, and xvc-server-debugbridge/src/backends/uio.rs and devmem.rs).
use xvc_rs.Prelude.{
  ℕ, ◌≡◌, ◌≢◌, refl, sym, ◌∙◌, some, List, [], ◌++◌, Bytes, AllU8, AreChunks, joined, ok, err,
  panic, length, length-replicate, replicate, drop, map,
}
use xvc_rs.Protocol.{Message}
use xvc_rs.Rw.Write.{encode, IsWire, vec_writer}
use xvc_rs.TokioCodec.Buffer.{Buffer}
use xvc_rs.Server.{Config}
use xvc_rs.Server.Session.{handle_client}
use xvc_rs.Server.Session.Stream.{arrivals}
use xvc_rs.Client
use xvc_rs.Client.{received, ExactReader}
use xvc_rs.Client.EndToEnd.{shift_end_to_end}
use xvc_rs.DebugBridge.MemoryMapped.{Registers}
use xvc_rs.DebugBridge.MemoryMapped.Words.{Played, play, rounds, shift_data-rounds}
use xvc_rs.DebugBridge.MemoryMapped.Sizes.{Filled, rounds-Filled, uio_backend}

module _ {H : Type 0} (mem : Registers H) where
  Filled-ne-panic : (size : ℕ) (p : Played mem) → Filled mem size p → p.0 ≢ panic
  Filled-ne-panic size (ok u, out, h) f e = cc
  Filled-ne-panic size (err x, out, h) f e = cc
  Filled-ne-panic size (panic, out, h) f e = absurd f

  -- Let a shift fit the protocol and the server's limit, with byte vectors. Then the server with a
  -- memory-mapped backend that is sent the encoded shift, in non-empty pieces of any size and then
  -- the end of the connection, plays the words of the shift on the bridge and leaves the bridge so,
  -- and writes the bytes that the words brought, with zeros behind them up to the size of the
  -- vectors where a word failed; and the client's `shift`, given those bytes in non-empty pieces of
  -- any size, returns them. Playing the words does not panic, and brings as many bytes as a vector
  -- has where it succeeds, and no more where it fails.
  pub bridge_end_to_end :
      (b : Buffer) (config : Config) (reader : ExactReader) (sent replies : List Bytes) (h : H)
      (n : ℕ) (tms tdi : Bytes)
      → IsWire config.max_vector_size (Message.shift n tms tdi)
      → AllU8 tms
      → AllU8 tdi
      → AreChunks sent
      → joined sent ≡ encode (Message.shift n tms tdi)
      → AreChunks replies
      → joined replies
        ≡ (play mem (rounds n tms tdi) h).1
          ++ drop (length (play mem (rounds n tms tdi) h).1) (replicate (length tdi) 0)
      → (handle_client b (uio_backend mem) vec_writer config 2 (arrivals sent) [] h []
          ≡ some (record {
            result = ok tt;
            hardware = (play mem (rounds n tms tdi) h).2;
            output = joined replies;
          }))
        × (Client.shift reader vec_writer n tms tdi (map received replies) []
            ≡ ok (joined replies, encode (Message.shift n tms tdi)))
        × Filled mem (length tdi) (play mem (rounds n tms tdi) h)
  bridge_end_to_end b config reader sent replies h n tms tdi (hn, hs, hi, hm) us ui cs js cr jr =
      let p = play mem (rounds n tms tdi) h in
      let filled : Filled mem (length tms) p =
        rounds-Filled mem n tms tdi h (sym hs) (hi ∙ sym hs) in
      let (server_side, client_side) =
        shift_end_to_end b (uio_backend mem) config reader sent replies h n tms tdi (joined replies)
          p.0 p.2 (hn, hs, hi, hm) us ui
          (shift_data-rounds mem n tms tdi (replicate (length tdi) 0) h hs hi
              (length-replicate (length tdi) 0 ∙ hi)
            ∙ λ t. (p.0, sym jr t, p.2))
          (Filled-ne-panic (length tms) p filled) cs js cr refl in
      (server_side, client_side, rw (hs ∙ sym hi) at filled)
