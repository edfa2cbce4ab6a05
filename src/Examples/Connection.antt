-- ===== src/Examples/Connection.antt =====
-- The server's loop and the client's requests, with the loopback bridge behind the server.
use mathlib.Core.List.{cons-ne-nil}
use xvc_rs.Prelude.{
  ℕ, ◌+◌, ◌≡◌, refl, sym, ◌∙◌, append-nil, some, none, List, [], ◌∷◌, ◌++◌, map, arith, Bytes,
  AreChunks, joined, codes, ok, to_le_bytes, replicate,
}
use xvc_rs.Text.{decimal, decimal_onto}
use xvc_rs.Errors.{IoError}
use xvc_rs.Protocol.{Message, XvcInfo, v1_0}
use xvc_rs.Rw.Write.{encode, vec_writer, info_line, show_version}
use xvc_rs.TokioCodec.Buffer.{list_buffer}
use xvc_rs.Server.{XvcServer, Config}
use xvc_rs.Server.Session.{ReadEvent, received, elapsed, handle_client, read_message}
use xvc_rs.Server.Session.Total.{EndsWell, EventsU8, handle_client-EndsWell}
use xvc_rs.Server.Session.Stream.{arrivals, IsPart, read_message-chunks, read_message-IsPart}
use xvc_rs.Server.Session.Serve.{serve_all, handle_client-serve_all}
use xvc_rs.Server.Listen.{
  Listener, Reachable, Serial, new, turn, admit, starts, steps, turns, accepted, cancelled,
  Reachable-Serial,
}
use xvc_rs.Client
use xvc_rs.Client.{received, read_info}
use xvc_rs.Client.Info.{read_info-chunks}
use xvc_rs.Client.EndToEnd.{get_info_end_to_end, set_tck_end_to_end, shift_end_to_end}
use xvc_rs.DebugBridge.MemoryMapped.Sizes.{uio_backend, shift_data_fills}
use xvc_rs.DebugBridge.MemoryMapped.Words.{play, rounds}
use xvc_rs.DebugBridge.MemoryMapped.{exchange, poll_until_ready}
use xvc_rs.Examples.Devices.{loopback, exact_reader}

abbrev bridge : XvcServer (List ℕ) IoError
bridge = uio_backend loopback

abbrev config : Config
config = record { max_vector_size = 4; read_write_timeout = 1 }

abbrev idle : List ℕ
idle = replicate 5 0

abbrev one_byte : Message
one_byte = Message.shift 8 (1 ∷ []) (2 ∷ [])

abbrev in_two : List Bytes
in_two = codes "getin" ∷ codes "fo:" ∷ []

in_two-AreChunks : AreChunks in_two
in_two-AreChunks = (cons-ne-nil _ _, (cons-ne-nil _ _, tt))

get-IsPart : IsPart list_buffer 4 (codes "get")
get-IsPart = (
  Message.get_info,
  codes "info:",
  tt,
  unfold encode in omega arith,
  unfold encode in refl,
  cons-ne-nil _ _,
)

handle_client-serve_all_example :
    handle_client list_buffer bridge vec_writer config 2
      (arrivals (codes "fo:" ∷ codes "get" ∷ []))
      (codes "getin")
      idle
      []
    ≡ some (serve_all bridge vec_writer config (Message.get_info ∷ []) idle [])
handle_client-serve_all_example =
    handle_client-serve_all list_buffer bridge vec_writer config (Message.get_info ∷ [])
      (codes "get") (codes "fo:" ∷ codes "get" ∷ []) (codes "getin") 2 idle []
      ((tt, unfold encode in omega arith), tt) get-IsPart in_two' (unfold encode in refl)
      (omega arith)
  where
    in_two' : AreChunks (codes "fo:" ∷ codes "get" ∷ [])
    in_two' = (cons-ne-nil _ _, (cons-ne-nil _ _, tt))

read_message-chunks_example :
    (buf' : Bytes) × (chunks' : List Bytes) × (read_message list_buffer 4 (arrivals in_two) []
      ≡ (ok (some Message.get_info), buf', arrivals chunks'))
    × (buf' ++ joined chunks' ≡ [])
    × AreChunks chunks'
read_message-chunks_example =
    read_message-chunks list_buffer 4 Message.get_info [] in_two [] tt
      (unfold encode in omega arith) in_two-AreChunks (unfold encode in refl)

read_message-IsPart_example :
    read_message list_buffer 4 (arrivals (codes "et" ∷ [])) (codes "g") ≡ (ok none, codes "get", [])
read_message-IsPart_example =
    read_message-IsPart list_buffer 4 (codes "get") (codes "et" ∷ []) (codes "g") get-IsPart
      (cons-ne-nil _ _, tt) refl

abbrev small_info : XvcInfo
small_info = record { version = v1_0; max_vector_len = 4 }

abbrev info_pieces : List Bytes
info_pieces = codes "xvcServer_" ∷ codes "v1.0:4\n" ∷ []

info_pieces-AreChunks : AreChunks info_pieces
info_pieces-AreChunks = (cons-ne-nil _ _, (cons-ne-nil _ _, tt))

info_pieces-joined : joined info_pieces ≡ info_line small_info
unfolding info_line show_version decimal decimal_onto
info_pieces-joined = refl

read_info-chunks_example : read_info list_buffer (map received info_pieces) [] ≡ ok small_info
read_info-chunks_example =
    read_info-chunks list_buffer small_info [] info_pieces []
      ((omega arith, omega arith), omega arith) info_pieces-AreChunks
      (info_pieces-joined ∙ sym (append-nil (info_line small_info)))

get_info_end_to_end_example :
    (handle_client list_buffer bridge vec_writer config 2 (arrivals in_two) [] idle []
      ≡ some (record { result = ok tt; hardware = idle; output = joined info_pieces }))
    × (Client.get_info list_buffer vec_writer (map received info_pieces) []
        ≡ ok (small_info, encode Message.get_info))
get_info_end_to_end_example =
    get_info_end_to_end list_buffer bridge config exact_reader in_two info_pieces idle (omega arith)
      in_two-AreChunks (unfold encode in refl) info_pieces-AreChunks info_pieces-joined

shift_one_byte :
    bridge.shift 8 (1 ∷ []) (2 ∷ []) (0 ∷ []) idle ≡ (ok tt, 2 ∷ [], 8 ∷ 1 ∷ 2 ∷ 0 ∷ 1 ∷ [])
shift_one_byte =
    shift_data_fills loopback 8 (1 ∷ []) (2 ∷ []) (0 ∷ []) idle (8 ∷ 1 ∷ 2 ∷ 0 ∷ 1 ∷ []) (2 ∷ [])
      refl refl refl (unfold play rounds exchange poll_until_ready in refl)

abbrev period_pieces : List Bytes
period_pieces = to_le_bytes 100 ∷ []

set_tck_end_to_end_example :
    (handle_client list_buffer bridge vec_writer config 2
        (arrivals (encode (Message.set_tck 100) ∷ []))
        []
        idle
        []
      ≡ some (record { result = ok tt; hardware = idle; output = joined period_pieces }))
    × (Client.set_tck exact_reader vec_writer 100 (map received period_pieces) []
        ≡ ok (100, encode (Message.set_tck 100)))
unfolding encode
set_tck_end_to_end_example =
    set_tck_end_to_end list_buffer bridge config exact_reader (encode (Message.set_tck 100) ∷ [])
      period_pieces idle 100 (ok 100) idle (omega arith) refl (λ e. cc e) (omega arith)
      (cons-ne-nil _ _, tt) refl (cons-ne-nil _ _, tt) refl

shift_end_to_end_example :
    (handle_client list_buffer bridge vec_writer config 2
        (arrivals (encode one_byte ∷ []))
        []
        idle
        []
      ≡ some (record {
        result = ok tt;
        hardware = 8 ∷ 1 ∷ 2 ∷ 0 ∷ 1 ∷ [];
        output = joined ((2 ∷ []) ∷ []);
      }))
    × (Client.shift exact_reader vec_writer 8 (1 ∷ []) (2 ∷ []) (map received ((2 ∷ []) ∷ [])) []
        ≡ ok (2 ∷ [], encode one_byte))
unfolding encode
shift_end_to_end_example =
    shift_end_to_end list_buffer bridge config exact_reader (encode one_byte ∷ []) ((2 ∷ []) ∷ [])
      idle 8 (1 ∷ []) (2 ∷ []) (2 ∷ []) (ok tt) (8 ∷ 1 ∷ 2 ∷ 0 ∷ 1 ∷ [])
      (omega arith, refl, refl, omega arith) (omega arith) (omega arith) shift_one_byte (λ e. cc e)
      (cons-ne-nil _ _, tt) refl (cons-ne-nil _ _, tt) refl

-- A client is served while a second one comes and is sent away, and the server is shut down.
abbrev busy : Listener (List ℕ)
busy =
    turn cancelled
      (turn (accepted (arrivals in_two) (ok tt)) (turn (accepted [] (ok tt)) (new idle)))

busy-Reachable : Reachable list_buffer bridge vec_writer config [] idle busy
unfolding new turn admit
busy-Reachable =
    steps _ _
      (steps _ _ (steps _ _ starts (turns (new idle) (accepted [] (ok tt)) refl))
        (turns (turn (accepted [] (ok tt)) (new idle)) (accepted (arrivals in_two) (ok tt)) refl))
      (turns (turn (accepted (arrivals in_two) (ok tt)) (turn (accepted [] (ok tt)) (new idle)))
        cancelled refl)

Reachable-Serial_example : Serial list_buffer bridge vec_writer config [] idle busy
Reachable-Serial_example =
    Reachable-Serial list_buffer bridge vec_writer config [] idle busy busy-Reachable

-- A backend that returns the TDO vector as it is, and a client that sends a bad command and waits.
abbrev echo : XvcServer ℕ IoError
echo = record {
  set_tck = λ period_ns h. (ok period_ns, h);
  shift = λ num_bits tms tdi tdo h. (ok tt, tdo, h + 1);
  length-shift = λ num_bits tms tdi tdo h. refl;
}

abbrev hostile : List ReadEvent
hostile =
    received (codes "getinfo:getinfo:shi")
    ∷ received (codes "ft")
    ∷ received (0xFF ∷ 0xFF ∷ [])
    ∷ elapsed
    ∷ []

hostile-EventsU8 : EventsU8 hostile
hostile-EventsU8 = (omega arith, (omega arith, (omega arith, tt)))

handle_client-EndsWell_example :
    EndsWell list_buffer echo vec_writer config
      (handle_client list_buffer echo vec_writer config 24 hostile [] 0 [])
handle_client-EndsWell_example =
    handle_client-EndsWell list_buffer echo vec_writer config (λ p h. tt)
      (λ n tms tdi h wire us ui. tt) (λ values w. tt) 24 hostile 0 [] (omega arith) hostile-EventsU8

-- The server while it serves that client.
abbrev serving : Listener ℕ
serving = turn (accepted hostile (ok tt)) (new 0)
