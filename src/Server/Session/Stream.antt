-- ===== src/Server/Session/Stream.antt =====
-- What `read_message` makes of a message that arrives in pieces.
use xvc_rs.Prelude.{
  ℕ, ◌≡◌, ◌≢◌, refl, sym, ◌∙◌, ap, inl, inr, some, none, List, [], ◌∷◌, ◌++◌, map, append_assoc,
  append-nil, arith, Bytes, AllU8, All-append_left, append-cases, AreChunks, joined, append-ne-nil,
  eq-nil_left, ok,
}
use xvc_rs.Protocol.{Message}
use xvc_rs.Rw.Write.{encode, IsWire}
use xvc_rs.TokioCodec.Buffer.{Buffer}
use xvc_rs.TokioCodec.MessageDecoder.RoundTrip.{decode-encode}
use xvc_rs.TokioCodec.MessageDecoder.Prefix.{decode_part}
use xvc_rs.Server.Session.{ReadEvent, received, failed, elapsed, read_message}

abbrev pub arrivals : List Bytes → List ReadEvent
arrivals = map received

module _ (b : Buffer) (max : ℕ) where
  -- With a whole message in the buffer nothing is read.
  read_message_ready :
      (m : Message) (r : Bytes) (events : List ReadEvent)
      → IsWire max m
      → read_message b max events (encode m ++ r) ≡ (ok (some m), r, events)
  unfolding read_message
  read_message_ready m r [] w = rw (decode-encode b max m r w)
  read_message_ready m r (received s ∷ events) w = rw (decode-encode b max m r w)
  read_message_ready m r (failed e ∷ events) w = rw (decode-encode b max m r w)
  read_message_ready m r (elapsed ∷ events) w = rw (decode-encode b max m r w)

  -- With a part of a message in the buffer the next bytes are read.
  read_message_more :
      (m : Message) (buf q s : Bytes) (events : List ReadEvent)
      → IsWire max m
      → AllU8 buf
      → encode m ≡ buf ++ q
      → q ≢ []
      → s ≢ []
      → read_message b max (received s ∷ events) buf ≡ read_message b max events (buf ++ s)
  unfolding read_message
  read_message_more m buf q [] events w h e ne ns = absurd (ns refl)
  read_message_more m buf q (c ∷ s) events w h e ne ns =
      rw (decode_part b max m buf q w h e ne) (ground arith)

  read_message_end :
      (m : Message) (buf q : Bytes)
      → IsWire max m
      → AllU8 buf
      → encode m ≡ buf ++ q
      → q ≢ []
      → read_message b max [] buf ≡ (ok none, buf, [])
  unfolding read_message
  read_message_end m buf q w h e ne = rw (decode_part b max m buf q w h e ne)

  -- If the bytes of an encoded message that fits the protocol and the limit, all below 256, with
  -- more bytes behind them, are in the buffer and in non-empty reads, cut in any way, then the
  -- server's `read_message` returns the message, and the bytes behind it are in the buffer or in the
  -- non-empty reads that are still to come.
  pub read_message-chunks :
      (m : Message) (rest : Bytes) (chunks : List Bytes) (buf : Bytes)
      → IsWire max m
      → AllU8 (encode m)
      → AreChunks chunks
      → buf ++ joined chunks ≡ encode m ++ rest
      → (buf' : Bytes) × (chunks' : List Bytes) × (read_message b max (arrivals chunks) buf
          ≡ (ok (some m), buf', arrivals chunks'))
        × (buf' ++ joined chunks' ≡ rest)
        × AreChunks chunks'
  read_message-chunks m rest [] buf w u hc e = elim (append-cases buf [] (encode m) rest e) [
    | inl (r, p, t) ↦ (r, [], rw p (read_message_ready m r [] w), t, hc)
    | inr (q, ne, p, t) ↦ absurd (ne (eq-nil_left q rest (sym t)))
  ]
  read_message-chunks m rest (s ∷ chunks) buf w u (hs, hc) e =
      elim (append-cases buf (s ++ joined chunks) (encode m) rest e) [
        | inl (r, p, t) ↦
            (r, s ∷ chunks, rw p (read_message_ready m r (arrivals (s ∷ chunks)) w), t, (hs, hc))
        | inr (q, ne, p, t) ↦
            let (buf', chunks', read, joins, are) =
              read_message-chunks m rest chunks (buf ++ s) w u hc
                (append_assoc buf s (joined chunks) ∙ e) in
            (
              buf',
              chunks',
              read_message_more m buf q s (arrivals chunks) w (All-append_left _ buf q (rw p at u))
                    p ne hs
                  ∙ read,
              joins,
              are,
            )
      ]

  -- The bytes `part` begin a message that does not end with them.
  abbrev pub IsPart : Bytes → Type 0
  IsPart part =
      (m : Message) × (q : Bytes) × IsWire max m
      × AllU8 (encode m)
      × (encode m ≡ part ++ q)
      × (q ≢ [])

  -- If a connection ends with its bytes, in the buffer and in non-empty reads, a proper part of an
  -- encoded message that fits the protocol and the limit, all bytes below 256, then the server's
  -- `read_message` ends without a message and without an error, with that part in the buffer.
  pub read_message-IsPart :
      (part : Bytes) (chunks : List Bytes) (buf : Bytes)
      → IsPart part
      → AreChunks chunks
      → buf ++ joined chunks ≡ part
      → read_message b max (arrivals chunks) buf ≡ (ok none, part, [])
  read_message-IsPart part [] buf (m, q, w, u, e, ne) hc j =
      let same : buf ≡ part = sym (append-nil buf) ∙ j in
      rw same (read_message_end m part q w (All-append_left _ part q (rw e at u)) e ne)
  read_message-IsPart part (s ∷ chunks) buf (m, q, w, u, e, ne) (hs, hc) j =
      let cut : encode m ≡ buf ++ ((s ++ joined chunks) ++ q) =
        e ∙ (ap (λ t. t ++ q) (sym j) ∙ append_assoc buf (s ++ joined chunks) q) in
      read_message_more m buf ((s ++ joined chunks) ++ q) s (arrivals chunks) w
        (All-append_left _ buf _ (rw cut at u)) cut (append-ne-nil (s ++ joined chunks) q ne) hs
      ∙ read_message-IsPart part chunks (buf ++ s) (m, q, w, u, e, ne) hc
          (append_assoc buf s (joined chunks) ∙ j)
