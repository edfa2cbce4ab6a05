-- ===== src/UnitTests/Integration.antt =====
-- xvc-tests: the stub backend, and the integration tests, with the server and the client in one run.
use xvc_rs.Prelude.{
  ℕ, suc, ◌≡◌, refl, Bool, true, ◌&&◌, ◌==◌, Option, some, none, List, [], ◌∷◌, ◌++◌, map, Bytes,
  Outcome, ok, length, drop, replicate, div_ceil,
}
use xvc_rs.Text.{
  decimal, decimal_onto, from_utf8, position, strip_prefix, split_once, parse_uint, scan_uint,
}
use xvc_rs.Errors.{ReadError}
use xvc_rs.Protocol.{v1_0, Message, XvcInfo}
use xvc_rs.Codec.Command
use xvc_rs.Codec.Shift
use xvc_rs.Codec.Shift.{parse_num_bits, parse_tdi_or_tms}
use xvc_rs.Codec.Info
use xvc_rs.Codec.Info.{parse_line, cut_line}
use xvc_rs.Codec.SliceReader.{get_u32_le, copy_to_boxed_slice}
use xvc_rs.Codec.VersionText.{from_str}
use xvc_rs.Rw.Write.{encode, vec_writer, write_to, write_info, info_line, show_version}
use xvc_rs.TokioCodec.Buffer.{list_buffer}
use xvc_rs.TokioCodec.MessageDecoder
use xvc_rs.TokioCodec.XvcInfoDecoder
use xvc_rs.Server.{XvcServer, Config, default_config}
use xvc_rs.Server.Respond.{compute_response}
use xvc_rs.Server.Session
use xvc_rs.Server.Session.{Ended, handle_client}
use xvc_rs.Server.Listen.{Listener, Connection, new, turn, accepted}
use xvc_rs.Client
use xvc_rs.Client.{get_info, shift, read_info}
use xvc_rs.UnitTests.Expect.{succeeds, fails, same_version, all_of}
use xvc_rs.Examples.Devices.{exact_reader}

-- `StubBackend`, whose error is `Infallible`.
abbrev stub_backend : XvcServer (Unit {0}) ⊥
stub_backend = record {
  set_tck = λ period_ns h. (ok period_ns, h);
  shift = λ num_bits tms tdi tdo h. (ok tt, tdo, h);
  length-shift = λ num_bits tms tdi tdo h. refl;
}

-- The requests of one client, each of which comes in one read.
abbrev connection : List Message → Connection
connection requests = map (λ m. Session.received (encode m)) requests

abbrev output : Option (Ended (Unit {0}) Bytes) → Bytes
output none = []
output (some ended) = ended.output

module _ (config : Config) where
  -- What a spawned server sends to a client with these requests.
  abbrev spawn_server : List Message → Bytes
  spawn_server requests = output (
      handle_client list_buffer stub_backend vec_writer config (suc (length requests))
        (connection requests) [] tt [])

  -- What it sends for the last one.
  abbrev answer : List Message → Message → Client.Incoming
  answer before m =
      Client.received (drop (length (spawn_server before)) (spawn_server (before ++ m ∷ [])))

  abbrev client_info : List Message → Outcome ReadError (XvcInfo × Bytes)
  client_info before = get_info list_buffer vec_writer (answer before Message.get_info ∷ []) []

  abbrev client_shift : List Message → ℕ → Bytes → Bytes → Outcome ReadError (Bytes × Bytes)
  client_shift before n tms tdi =
      shift exact_reader vec_writer n tms tdi (answer before (Message.shift n tms tdi) ∷ []) []

abbrev get_info_returns_v1_0 : Bool
get_info_returns_v1_0 = succeeds (client_info default_config []) λ r. same_version r.0.version v1_0

abbrev get_info_max_vector_len_matches_config : Bool
get_info_max_vector_len_matches_config =
    succeeds (client_info (record default_config { max_vector_size = 1024 }) [])
      λ r. r.0.max_vector_len == 1024

abbrev get_info_can_be_called_multiple_times : Bool
get_info_can_be_called_multiple_times =
    succeeds (client_info default_config []) (λ r. true)
    && (succeeds (client_info default_config (Message.get_info ∷ [])) (λ r. true)
        && succeeds (client_info default_config (Message.get_info ∷ Message.get_info ∷ []))
            (λ r. true))

abbrev shift_returns_tdo_of_correct_length : Bool
shift_returns_tdo_of_correct_length =
    succeeds (client_shift default_config [] 8 (0x00 ∷ []) (0xFF ∷ [])) λ r. length r.0 == 1

abbrev shift_non_byte_aligned_rounds_up : Bool
shift_non_byte_aligned_rounds_up =
    succeeds (client_shift default_config [] 9 (0x00 ∷ 0x00 ∷ []) (0xFF ∷ 0xFF ∷ []))
      λ r. length r.0 == 2

-- The vectors of `n` bits are zeros.
abbrev zeros_of : ℕ → Bytes
zeros_of n = replicate (div_ceil n 8) 0

abbrev all_shifts : List Message → List ℕ → Bool
all_shifts before [] = true
all_shifts before (bits ∷ later) =
    succeeds (client_shift default_config before bits (zeros_of bits) (zeros_of bits))
      (λ r. length r.0 == div_ceil bits 8)
    && all_shifts (before ++ Message.shift bits (zeros_of bits) (zeros_of bits) ∷ []) later

abbrev shift_multiple_times_in_sequence : Bool
shift_multiple_times_in_sequence = all_shifts [] (1 ∷ 7 ∷ 8 ∷ 9 ∷ 32 ∷ [])

-- The connections of the clients whose tasks are running.
abbrev running : Listener (Unit {0}) → ℕ
running s = length s.active

abbrev with_client_a : Listener (Unit {0})
with_client_a =
    turn (accepted (connection (Message.get_info ∷ Message.get_info ∷ [])) (ok tt)) (new tt)

-- The second connection is dropped, so that its client reads nothing; the first goes on.
abbrev second_client_is_rejected : Bool
second_client_is_rejected =
    running (turn (accepted (connection (Message.get_info ∷ [])) (ok tt)) with_client_a) == 1
    && (fails (read_info list_buffer [] []) (λ e. true)
        && (succeeds (client_info default_config []) (λ r. true)
            && succeeds (client_info default_config (Message.get_info ∷ [])) (λ r. true)))

-- The first client's task has ended.
abbrev without_client_a : Listener (Unit {0})
without_client_a = record with_client_a { free = some tt; active = [] }

abbrev new_client_can_connect_after_previous_disconnects : Bool
new_client_can_connect_after_previous_disconnects =
    running (turn (accepted (connection (Message.get_info ∷ [])) (ok tt)) without_client_a) == 1
    && succeeds (client_info default_config []) (λ r. true)

integration_tests_pass :
    all_of (
      get_info_returns_v1_0 ∷ get_info_max_vector_len_matches_config
      ∷ get_info_can_be_called_multiple_times ∷ shift_returns_tdo_of_correct_length
      ∷ shift_non_byte_aligned_rounds_up ∷ shift_multiple_times_in_sequence
      ∷ second_client_is_rejected ∷ new_client_can_connect_after_previous_disconnects ∷ [])
    ≡ true
unfolding encode handle_client compute_response MessageDecoder.decode XvcInfoDecoder.decode get_info
    shift read_info turn new write_to write_info info_line show_version decimal decimal_onto
    Command.parse Shift.parse parse_num_bits parse_tdi_or_tms get_u32_le copy_to_boxed_slice
    Info.parse parse_line cut_line position strip_prefix split_once from_utf8 from_str parse_uint
    scan_uint Client.write_message Session.read_message xvc_rs.Examples.Devices.read_exact
integration_tests_pass = refl
