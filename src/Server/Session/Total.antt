-- ===== src/Server/Session/Total.antt =====
-- `handle_client` ends on every connection, whatever is sent on it.
use xvc_rs.Prelude.{
  ℕ, zero, suc, ◌+◌, ◌<◌, ◌==◌, ◌≡◌, refl, ap, Option, some, none, List, [], ◌∷◌, ◌++◌, arith,
  Bytes, AllU8, All-append, All-append_left, All-append_right, to_le_bytes, Outcome, ok, err, panic,
  Safe, length, replicate, length-append, Bool-cases, inl, inr,
}
use xvc_rs.Errors.{IoError, ReadError}
use xvc_rs.Protocol.{Message}
use xvc_rs.Codec.Command.{cmd_shift}
use xvc_rs.Rw.Write.{Writer, encode, IsWire, write_info}
use xvc_rs.TokioCodec.Buffer.{Buffer}
use xvc_rs.TokioCodec.MessageDecoder.{Decoded}
use xvc_rs.TokioCodec.MessageDecoder.View.{View}
use xvc_rs.TokioCodec.MessageDecoder.Sound.{decode-View}
use xvc_rs.Server.{XvcServer, Config}
use xvc_rs.Server.Respond.{compute_response, tck_reply, shift_reply}
use xvc_rs.Server.Session.{
  ReadEvent, received, failed, elapsed, Reading, or_read, read_message, Ended, send, reply, handle,
  handle_client,
}

-- The number of bytes that are still to come.
abbrev pub pending : List ReadEvent → ℕ
pending [] = 0
pending (received s ∷ events) = length s + pending events
pending (failed e ∷ events) = pending events
pending (elapsed ∷ events) = pending events

abbrev pub EventsU8 : List ReadEvent → Type 0
EventsU8 [] = Unit
EventsU8 (received s ∷ events) = AllU8 s × EventsU8 events
EventsU8 (failed e ∷ events) = EventsU8 events
EventsU8 (elapsed ∷ events) = EventsU8 events

-- A message takes some of the `n` bytes.
data Progress (max n : ℕ) : Reading → Type 0 where
  taken :
      (m : Message) (buf : Bytes) (events : List ReadEvent)
      → length buf + pending events < n
      → IsWire max m
      → AllU8 (encode m)
      → AllU8 buf
      → EventsU8 events
      → Progress max n (ok (some m), buf, events)
  nothing : (buf : Bytes) (events : List ReadEvent) → Progress max n (ok none, buf, events)
  fails :
      (e : ReadError) (buf : Bytes) (events : List ReadEvent) → Progress max n (err e, buf, events)

length-encode : (m : Message) → 0 < length (encode m)
unfolding encode
length-encode Message.get_info = omega arith
length-encode (Message.set_tck p) = omega arith
length-encode (Message.shift n tms tdi) = omega arith

or_read-Progress :
    (max : ℕ) (buf : Bytes) (events : List ReadEvent) (d : Decoded Message) (read : Bytes → Reading)
    → View max buf d
    → AllU8 buf
    → EventsU8 events
    → Progress max (length buf + pending events) (read buf)
    → Progress max (length buf + pending events) (or_read d events read)
unfolding or_read
or_read-Progress max buf events _ read (View.message m r e w) u v p =
    taken m r events
      (omega (arith, ap (λ (s : Bytes). length s) e, length-append (encode m) r, length-encode m)) w
      (All-append_left (λ b. b < 256) (encode m) r (rw e at u))
      (All-append_right (λ b. b < 256) (encode m) r (rw e at u)) v
or_read-Progress max buf events _ read (View.waiting limit m q w e ne) u v p = p
or_read-Progress max buf events _ read (View.foreign f) u v p = fails _ buf events
or_read-Progress max buf events _ read (View.oversized a b c d r e over) u v p = fails _ buf events

module _ (b : Buffer) where
  read_message-Progress :
      (max : ℕ) (events : List ReadEvent) (buf : Bytes)
      → AllU8 buf
      → EventsU8 events
      → Progress max (length buf + pending events) (read_message b max events buf)
  unfolding read_message
  read_message-Progress max [] buf u v =
      or_read-Progress max buf [] _ _ (decode-View b max buf u) u v (nothing buf [])
  read_message-Progress max (failed e ∷ events) buf u v =
      or_read-Progress max buf (failed e ∷ events) _ _ (decode-View b max buf u) u v
        (fails _ buf events)
  read_message-Progress max (elapsed ∷ events) buf u v =
      or_read-Progress max buf (elapsed ∷ events) _ _ (decode-View b max buf u) u v
        (nothing buf events)
  read_message-Progress max (received s ∷ events) buf u (us, v) =
      or_read-Progress max buf (received s ∷ events) _ _ (decode-View b max buf u) u (us, v)
        (elim (Bool-cases (length s == 0)) [
          | inl closed ↦ rw closed (nothing buf events)
          | inr open_ ↦
              let sum : length (buf ++ s) + pending events
                  ≡ length buf + (length s + pending events) =
                omega (arith, length-append buf s) in
              rw open_ (
                rw sum at (
                  read_message-Progress max events (buf ++ s) (All-append (λ b. b < 256) buf s u us)
                    v))
        ])

module _ (b : Buffer) {H E W : Type 0} (server : XvcServer H E) (writer : Writer W)
    (config : Config) where
  -- A connection's end, and no panic.
  abbrev pub EndsWell : Option (Ended H W) → Type 0
  EndsWell r = (ended : Ended H W) × (r ≡ some ended) × Safe ended.result

  tck_reply-Safe : (p : ℕ) (r : Outcome E ℕ × H) → Safe r.0 → Safe (tck_reply server p r).0
  unfolding tck_reply
  tck_reply-Safe p (ok q, h) s = tt
  tck_reply-Safe p (err e, h) s = tt
  tck_reply-Safe p (panic, h) s = s

  shift_reply-Safe :
      (r : Outcome E (Unit {0}) × Bytes × H) → Safe r.0 → Safe (shift_reply server r).0
  unfolding shift_reply
  shift_reply-Safe (ok u, buf, h) s = tt
  shift_reply-Safe (err e, buf, h) s = tt
  shift_reply-Safe (panic, buf, h) s = s

  module _ (tck : (p : ℕ) (h : H) → Safe (server.set_tck p h).0)
      (shifts : (n : ℕ) (tms tdi : Bytes) (h : H)
        → IsWire config.max_vector_size (Message.shift n tms tdi)
        → AllU8 tms
        → AllU8 tdi
        → Safe (server.shift n tms tdi (replicate (length tdi) 0) h).0)
      (writes : (values : Bytes) (w : W) → Safe (writer.write_all values w)) where
    compute_response-Safe :
        (m : Message) (h : H)
        → IsWire config.max_vector_size m
        → AllU8 (encode m)
        → Safe (compute_response server config m h).0
    unfolding compute_response write_info encode
    compute_response-Safe Message.get_info h wire u = tt
    compute_response-Safe (Message.set_tck p) h wire u =
        tck_reply-Safe p (server.set_tck p h) (tck p h)
    compute_response-Safe (Message.shift n tms tdi) h wire u =
        let vectors : AllU8 (tms ++ tdi) =
          All-append_right _ (cmd_shift ++ to_le_bytes n) (tms ++ tdi) u in
        shift_reply-Safe (server.shift n tms tdi (replicate (length tdi) 0) h) (
          shifts n tms tdi h wire (All-append_left _ tms tdi vectors)
            (All-append_right _ tms tdi vectors))

    send-EndsWell :
        (o : Outcome IoError W) (h : H) (w : W) (next : H → W → Option (Ended H W))
        → Safe o
        → ((h : H) (w : W) → EndsWell (next h w))
        → EndsWell (send b server writer config o h w next)
    unfolding send
    send-EndsWell (ok w') h w next s k = k h w'
    send-EndsWell (err e) h w next s k = (_, refl, tt)
    send-EndsWell panic h w next s k = absurd s

    reply-EndsWell :
        (r : Outcome ReadError Bytes × H) (w : W) (next : H → W → Option (Ended H W))
        → Safe r.0
        → ((h : H) (w : W) → EndsWell (next h w))
        → EndsWell (reply b server writer config r w next)
    unfolding reply
    reply-EndsWell (ok response, h) w next s k =
        send-EndsWell (writer.write_all response w) h w next (writes response w) k
    reply-EndsWell (err e, h) w next s k = (_, refl, tt)
    reply-EndsWell (panic, h) w next s k = absurd s

    handle-EndsWell :
        (n : ℕ) (r : Reading) (h : H) (w : W)
        (next : List ReadEvent → Bytes → H → W → Option (Ended H W))
        → Progress config.max_vector_size n r
        → ((events : List ReadEvent) (buf : Bytes) (h : H) (w : W)
            → length buf + pending events < n
            → AllU8 buf
            → EventsU8 events
            → EndsWell (next events buf h w))
        → EndsWell (handle b server writer config r h w next)
    unfolding handle
    handle-EndsWell n _ h w next (taken m buf events less wire um u v) k =
        reply-EndsWell (compute_response server config m h) w (next events buf)
          (compute_response-Safe m h wire um) (λ h' w'. k events buf h' w' less u v)
    handle-EndsWell n _ h w next (nothing buf events) k = (_, refl, tt)
    handle-EndsWell n _ h w next (fails e buf events) k = (_, refl, tt)

    handle_client_from :
        (fuel : ℕ) (events : List ReadEvent) (buf : Bytes) (h : H) (w : W)
        → length buf + pending events < fuel
        → AllU8 buf
        → EventsU8 events
        → EndsWell (handle_client b server writer config fuel events buf h w)
    unfolding handle_client
    handle_client_from zero events buf h w enough u v = absurd (omega arith)
    handle_client_from (suc fuel) events buf h w enough u v =
        handle-EndsWell (length buf + pending events) _ h w _
          (read_message-Progress b config.max_vector_size events buf u v)
          (λ events' buf' h' w' less u' v'.
            handle_client_from fuel events' buf' h' w' (omega arith) u' v')

  -- Let the backend not panic, on shifts that fit the protocol and the limit and have byte vectors,
  -- nor the writer. Then `handle_client` ends without a panic on every connection, with more fuel
  -- than bytes are sent on it: whatever bytes below 256 the client sends, in whatever reads, with
  -- errors and timeouts between them.
  pub handle_client-EndsWell :
      ((p : ℕ) (h : H) → Safe (server.set_tck p h).0)
      → ((n : ℕ) (tms tdi : Bytes) (h : H)
          → IsWire config.max_vector_size (Message.shift n tms tdi)
          → AllU8 tms
          → AllU8 tdi
          → Safe (server.shift n tms tdi (replicate (length tdi) 0) h).0)
      → ((values : Bytes) (w : W) → Safe (writer.write_all values w))
      → (fuel : ℕ) (events : List ReadEvent) (h : H) (w : W) → pending events < fuel
      → EventsU8 events
      → EndsWell (handle_client b server writer config fuel events [] h w)
  handle_client-EndsWell tck shifts writes fuel events h w enough v =
      handle_client_from tck shifts writes fuel events [] h w (omega arith) tt v
