-- ===== src/Examples/Bridge.antt =====
-- `shift_data` on the bridge that answers each word with its TDI word.
use mathlib.Core.List.{cons-ne-nil}
use xvc_rs.Prelude.{
  take, some, none, codes, ℕ, ◌≡◌, refl, List, [], ◌∷◌, ◌++◌, arith, ok, replicate, Bytes, joined,
  length, drop, map,
}
use xvc_rs.Protocol.{Message}
use xvc_rs.Rw.Write.{encode, vec_writer}
use xvc_rs.TokioCodec.Buffer.{list_buffer}
use xvc_rs.Server.{Config}
use xvc_rs.Server.Session.{handle_client}
use xvc_rs.Server.Session.Stream.{arrivals}
use xvc_rs.Client
use xvc_rs.DebugBridge.EndToEnd.{bridge_end_to_end}
use xvc_rs.DebugBridge.MemoryMapped.{exchange, poll_until_ready, shift_data}
use xvc_rs.DebugBridge.MemoryMapped.Words.{place, play, rounds, shift_data-rounds}
use xvc_rs.DebugBridge.MemoryMapped.Sizes.{uio_backend, Filled}
use xvc_rs.DebugBridge.Select.{Entry, entry, Search, search, search-Search}
use xvc_rs.Examples.Devices.{loopback, exact_reader}

abbrev idle : List ℕ
idle = replicate 5 0

play_five :
    play loopback (rounds 37 (1 ∷ 0 ∷ 0 ∷ 0 ∷ 1 ∷ []) (10 ∷ 20 ∷ 30 ∷ 40 ∷ 5 ∷ [])) idle
    ≡ (ok tt, 10 ∷ 20 ∷ 30 ∷ 40 ∷ 5 ∷ [], 5 ∷ 1 ∷ 5 ∷ 0 ∷ 1 ∷ [])
unfolding play rounds exchange poll_until_ready
play_five = refl

shift_data-rounds_example :
    shift_data loopback 37
      (1 ∷ 0 ∷ 0 ∷ 0 ∷ 1 ∷ [])
      (10 ∷ 20 ∷ 30 ∷ 40 ∷ 5 ∷ [])
      (replicate 5 0)
      idle
    ≡ place loopback []
        (replicate 5 0)
        (play loopback (rounds 37 (1 ∷ 0 ∷ 0 ∷ 0 ∷ 1 ∷ []) (10 ∷ 20 ∷ 30 ∷ 40 ∷ 5 ∷ [])) idle)
shift_data-rounds_example =
    shift_data-rounds loopback 37 (1 ∷ 0 ∷ 0 ∷ 0 ∷ 1 ∷ []) (10 ∷ 20 ∷ 30 ∷ 40 ∷ 5 ∷ [])
      (replicate 5 0) idle refl refl refl

abbrev limit : Config
limit = record { max_vector_size = 5; read_write_timeout = 1 }

abbrev five_bytes : Message
five_bytes = Message.shift 37 (1 ∷ 0 ∷ 0 ∷ 0 ∷ 1 ∷ []) (10 ∷ 20 ∷ 30 ∷ 40 ∷ 5 ∷ [])

-- The reply comes in two pieces.
abbrev five_replies : List Bytes
five_replies = (10 ∷ 20 ∷ []) ∷ (30 ∷ 40 ∷ 5 ∷ []) ∷ []

played_replies :
    joined five_replies
    ≡ (play loopback (rounds 37 (1 ∷ 0 ∷ 0 ∷ 0 ∷ 1 ∷ []) (10 ∷ 20 ∷ 30 ∷ 40 ∷ 5 ∷ [])) idle).1
      ++ drop
          (length
            (play loopback
              (rounds 37 (1 ∷ 0 ∷ 0 ∷ 0 ∷ 1 ∷ []) (10 ∷ 20 ∷ 30 ∷ 40 ∷ 5 ∷ []))
              idle).1)
          (replicate 5 0)
unfolding play rounds exchange poll_until_ready
played_replies = refl

bridge_end_to_end_example :
    (handle_client list_buffer
        (uio_backend loopback)
        vec_writer
        limit
        2
        (arrivals (encode five_bytes ∷ []))
        []
        idle
        []
      ≡ some (record {
        result = ok tt;
        hardware =
            (play loopback
              (rounds 37 (1 ∷ 0 ∷ 0 ∷ 0 ∷ 1 ∷ []) (10 ∷ 20 ∷ 30 ∷ 40 ∷ 5 ∷ []))
              idle).2;
        output = joined five_replies;
      }))
    × (Client.shift exact_reader vec_writer 37
          (1 ∷ 0 ∷ 0 ∷ 0 ∷ 1 ∷ [])
          (10 ∷ 20 ∷ 30 ∷ 40 ∷ 5 ∷ [])
          (map Client.received five_replies)
          []
        ≡ ok (joined five_replies, encode five_bytes))
    × Filled loopback 5
        (play loopback (rounds 37 (1 ∷ 0 ∷ 0 ∷ 0 ∷ 1 ∷ []) (10 ∷ 20 ∷ 30 ∷ 40 ∷ 5 ∷ [])) idle)
unfolding encode
bridge_end_to_end_example =
    bridge_end_to_end loopback list_buffer limit exact_reader (encode five_bytes ∷ []) five_replies
      idle 37 (1 ∷ 0 ∷ 0 ∷ 0 ∷ 1 ∷ []) (10 ∷ 20 ∷ 30 ∷ 40 ∷ 5 ∷ [])
      (omega arith, refl, refl, omega arith) (omega arith) (omega arith) (cons-ne-nil _ _, tt) refl
      (cons-ne-nil _ _, (cons-ne-nil _ _, tt)) played_replies

abbrev class_entries : List Entry
class_entries =
    entry (codes "uio0") none
    ∷ entry (codes "uio1") (some (codes "gpio\n"))
    ∷ entry (codes "uio2") (some (codes "debug_bridge\n"))
    ∷ []

search-Search_example :
    Search (λ s. take 12 s) class_entries (search (λ s. take 12 s) class_entries)
search-Search_example = search-Search (λ s. take 12 s) class_entries
