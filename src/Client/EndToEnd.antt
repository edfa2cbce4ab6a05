-- ===== src/Client/EndToEnd.antt =====
-- The client of xvc-client against the server of xvc-server, over a connection that delivers all
-- bytes, in order, in pieces of any size.
use mathlib.Core.List.{cons-ne-nil}
use xvc_rs.Prelude.{
  ℕ, ◌^◌, ◌<◌, ◌≡◌, refl, sym, ap, ◌∙◌, some, List, [], ◌∷◌, ◌++◌, map, append-nil, arith, Bytes,
  AllU8, All-append, AreChunks, joined, Outcome, ok, err, panic, ◌≢◌, length, replicate,
  length-replicate, div_ceil, to_le_bytes, from_le_bytes-to_le_bytes, ==_refl,
}
use xvc_rs.Protocol.{Message, v1_0}
use xvc_rs.Codec.Command.{cmd_shift}
use xvc_rs.Rw.Write.{encode, IsWire, vec_writer, write_to-encode, write_info, info_line}
use xvc_rs.TokioCodec.Buffer.{Buffer}
use xvc_rs.Server.{XvcServer, Config}
use xvc_rs.Server.Respond.{compute_response, tck_reply, shift_reply}
use xvc_rs.Server.Session.{handle_client}
use xvc_rs.Server.Session.Stream.{arrivals, IsPart}
use xvc_rs.Server.Session.Serve.{serve_all, handle_client-serve_all}
use xvc_rs.Client
use xvc_rs.Client.{ExactReader, received, write_message, period_of, read_info}
use xvc_rs.Client.Info.{read_info-chunks}

write_message-encode : (m : Message) (w : Bytes) → write_message vec_writer m w ≡ ok (w ++ encode m)
unfolding write_message
write_message-encode m w = rw (write_to-encode m [])

nothing-IsPart : (b : Buffer) (max : ℕ) → IsPart b max []
unfolding encode
nothing-IsPart b max =
    (Message.get_info, encode Message.get_info, tt, omega arith, refl, cons-ne-nil _ _)

encode-AllU8 :
    (n : ℕ) (tms tdi : Bytes) → AllU8 tms → AllU8 tdi → AllU8 (encode (Message.shift n tms tdi))
unfolding encode
encode-AllU8 n tms tdi hs hi =
    All-append _ (cmd_shift ++ to_le_bytes n) (tms ++ tdi) (omega arith)
      (All-append _ tms tdi hs hi)

module _ (b : Buffer) {H E : Type 0} (server : XvcServer H E) (config : Config) where
  shift_reply-ok :
      (r : Outcome E (Unit {0})) (tdo : Bytes) (h : H)
      → r ≢ panic
      → shift_reply server (r, tdo, h) ≡ (ok tdo, h)
  unfolding shift_reply
  shift_reply-ok (ok _) tdo h np = refl
  shift_reply-ok (err e) tdo h np = refl
  shift_reply-ok panic tdo h np = absurd (np refl)

  -- A server that gets one message, in whatever pieces, and then the end of the connection.
  serve_one :
      (m : Message) (chunks : List Bytes) (response : Bytes) (h h' : H)
      → IsWire config.max_vector_size m
      → AllU8 (encode m)
      → AreChunks chunks
      → joined chunks ≡ encode m
      → compute_response server config m h ≡ (ok response, h')
      → handle_client b server vec_writer config 2 (arrivals chunks) [] h []
        ≡ some (record { result = ok tt; hardware = h'; output = response })
  unfolding serve_all
  serve_one m chunks response h h' w u c j r =
      handle_client-serve_all b server vec_writer config (m ∷ []) [] chunks [] 2 h [] ((w, u), tt)
        (nothing-IsPart b config.max_vector_size) c (j ∙ sym (append-nil (encode m))) (omega arith)
      ∙ rw r

  -- What `set_tck` of the backend makes of the period: the one that it returns, or, where it fails,
  -- the one that was asked for.
  abbrev pub period_after : ℕ → Outcome E ℕ → ℕ
  period_after p (ok q) = q
  period_after p _ = p

  tck_reply-ok :
      (p : ℕ) (r : Outcome E ℕ) (h : H)
      → r ≢ panic
      → tck_reply server p (r, h) ≡ (ok (to_le_bytes (period_after p r)), h)
  unfolding tck_reply
  tck_reply-ok p (ok q) h np = refl
  tck_reply-ok p (err e) h np = refl
  tck_reply-ok p panic h np = absurd (np refl)

  module _ (reader : ExactReader) (sent replies : List Bytes) (h : H) where
    open reader use {read_exact, read_exact-joined}

    -- Let the server's limit be below 2 ^ 32. Then the server that is sent the encoded `get_info`,
    -- in non-empty pieces of any size and then the end of the connection, writes the line of version
    -- 1.0 and its limit and leaves the hardware; and the client's `get_info`, given that line in
    -- non-empty pieces of any size, sends the encoded request and returns version 1.0 and the limit.
    pub get_info_end_to_end :
        config.max_vector_size < 2 ^ 32
        → AreChunks sent
        → joined sent ≡ encode Message.get_info
        → AreChunks replies
        → joined replies
          ≡ info_line (record { version = v1_0; max_vector_len = config.max_vector_size })
        → (handle_client b server vec_writer config 2 (arrivals sent) [] h []
            ≡ some (record { result = ok tt; hardware = h; output = joined replies }))
          × (Client.get_info b vec_writer (map received replies) []
              ≡ ok (
                record { version = v1_0; max_vector_len = config.max_vector_size },
                encode Message.get_info,
              ))
    unfolding Client.get_info compute_response write_info
    get_info_end_to_end limit cs js cr jr = (
      serve_one Message.get_info sent (joined replies) h h tt (unfold encode in omega arith) cs js
          (rw jr),
      rw (
        write_message-encode Message.get_info [],
        read_info-chunks b (record { version = v1_0; max_vector_len = config.max_vector_size }) []
            replies [] (omega arith) cr (jr ∙ sym (append-nil _)),
      ),
    )

    -- Let a period be below 2 ^ 32 and the backend's `set_tck` return a result that is no panic, and
    -- let the period that it sets (or, where it fails, the requested one) be below 2 ^ 32. Then the
    -- server that is sent the encoded request, in non-empty pieces of any size and then the end of
    -- the connection, writes that period, and leaves the hardware as the backend did; and the
    -- client's `set_tck`, given the reply in non-empty pieces of any size, sends the encoded request
    -- and returns that period.
    pub set_tck_end_to_end :
        (p : ℕ) (r : Outcome E ℕ) (h' : H)
        → p < 2 ^ 32
        → server.set_tck p h ≡ (r, h')
        → r ≢ panic
        → period_after p r < 2 ^ 32
        → AreChunks sent
        → joined sent ≡ encode (Message.set_tck p)
        → AreChunks replies
        → joined replies ≡ to_le_bytes (period_after p r)
        → (handle_client b server vec_writer config 2 (arrivals sent) [] h []
            ≡ some (record { result = ok tt; hardware = h'; output = joined replies }))
          × (Client.set_tck reader vec_writer p (map received replies) []
              ≡ ok (period_after p r, encode (Message.set_tck p)))
    unfolding Client.set_tck period_of compute_response tck_reply
    set_tck_end_to_end p r h' hp e np hq cs js cr jr = (
      serve_one (Message.set_tck p) sent (joined replies) h h' hp (unfold encode in omega arith) cs
          js (rw (e, jr) (tck_reply-ok p r h' np)),
      (let (_, read, _) = read_exact-joined (to_le_bytes (period_after p r)) [] replies cr jr in
          rw (
            write_message-encode (Message.set_tck p) [],
            read,
            from_le_bytes-to_le_bytes (period_after p r) hq,
          )),
    )

    -- Let a shift fit the protocol and the server's limit, with byte vectors, and let the backend's
    -- `shift` return a result that is no panic, with `tdo`. Then the server that is sent the encoded
    -- shift, in non-empty pieces of any size and then the end of the connection, writes `tdo`, and
    -- leaves the hardware as the backend did; and the client's `shift`, given `tdo` in non-empty
    -- pieces of any size, sends the encoded shift and returns `tdo`, whether the backend succeeded
    -- or failed.
    pub shift_end_to_end :
        (n : ℕ) (tms tdi tdo : Bytes) (r : Outcome E (Unit {0})) (h' : H)
        → IsWire config.max_vector_size (Message.shift n tms tdi)
        → AllU8 tms
        → AllU8 tdi
        → server.shift n tms tdi (replicate (length tdi) 0) h ≡ (r, tdo, h')
        → r ≢ panic
        → AreChunks sent
        → joined sent ≡ encode (Message.shift n tms tdi)
        → AreChunks replies
        → joined replies ≡ tdo
        → (handle_client b server vec_writer config 2 (arrivals sent) [] h []
            ≡ some (record { result = ok tt; hardware = h'; output = joined replies }))
          × (Client.shift reader vec_writer n tms tdi (map received replies) []
              ≡ ok (tdo, encode (Message.shift n tms tdi)))
    unfolding Client.shift compute_response
    shift_end_to_end n tms tdi tdo r h' (hn, hs, hi, hm) us ui e np cs js cr jr = (
      serve_one (Message.shift n tms tdi) sent (joined replies) h h' (hn, hs, hi, hm)
          (encode-AllU8 n tms tdi us ui) cs js (rw (e, jr) (shift_reply-ok r tdo h' np)),
      (let full : length tdo ≡ div_ceil n 8 =
            ap length (sym (ap (λ (t : Outcome E (Unit {0}) × Bytes × H). t.1) e))
            ∙ (server.length-shift n tms tdi (replicate (length tdi) 0) h
                ∙ (length-replicate (length tdi) 0 ∙ hi)) in
          let (_, read, _) = read_exact-joined tdo [] replies cr (jr ∙ sym (append-nil tdo)) in
          rw (
            hs,
            hi,
            ==_refl (div_ceil n 8),
            write_message-encode (Message.shift n tms tdi) [],
            ← full,
            read,
          )),
    )
