-- ===== src/Lib.antt =====
-- xvc-rs: the Xilinx Virtual Cable protocol, its client, its server, and the server's backends.
--
-- A client sends three kinds of messages over TCP, get_info, set_tck and shift; a server answers
-- them in order, by a backend that drives JTAG hardware. The model follows the crates:
--
--   Prelude     what the modules share: tests on numbers, lists, results with panics, slices.
--   Text        what the code uses of Rust's text functions: UTF-8, integers, searches.
--   Errors      xvc-protocol/src/error.rs, and ParseErr of codec.rs.
--   Protocol    xvc-protocol/src/protocol.rs: Version, Message, XvcInfo, XvcCommand.
--   Codec       xvc-protocol/src/codec.rs: one module for each parser (Command, SetTck, Shift,
--               Info), SliceReader, and Version's from_str (VersionText). A parser takes `buf:
--               &mut &[u8]` and returns its result and what it leaves of the slice.
--   Rw          xvc-protocol/src/rw.rs: write_to (Write), the blocking Decoder, and from_reader on
--               a new one (FromReader).
--   TokioCodec  xvc-protocol/src/tokio_codec.rs: MessageDecoder and XvcInfoDecoder. BytesMut is
--               its contents, and `advance` is a parameter (Buffer).
--   Server      xvc-server/src: the trait XvcServer as an interface, the configuration and its
--               Builder, compute_response (Respond), read_message and handle_client (Session),
--               listen_on (Listen).
--   Client      xvc-client/src/lib.rs; `read_exact` of tokio is a parameter (ExactReader).
--   DebugBridge xvc-server-debugbridge/src: backends/memory_mapped.rs, with uio.rs and devmem.rs
--               as its backends, and kernel_driver.rs, whose ioctl is a parameter; the search for
--               a bridge in main.rs (Select), the system's calls as a parameter (Os), opening and
--               dropping a backend (Open, Properties), main (Program), and a client and the server
--               with a memory-mapped backend (EndToEnd).
--   Ftdi        xvc-server-usb/src: the clock and the backend of ftdi_server.rs (Clock, Backend),
--               and ftdi_device.rs over a USB handle that is a parameter: the bulk transfers (Usb,
--               where `pipes` is the handle at a device's endpoints with its timeout),
--               shift_chunks (Shift), the choice of an adapter (Discovery) and its set-up (Setup);
--               disambiguation.rs (Disambiguation), and main (Program). Bits has the masks of
--               shift_chunks.
--   Examples    the theorems at concrete inputs.
--   UnitTests   the unit tests of xvc-protocol and xvc-server-usb, and the integration tests of
--               xvc-tests, as Booleans.
--
-- How the code becomes definitions. A byte is a native number, and a theorem that depends on it
-- says that bytes are below 256. A result is ok, err or panic; slices out of range, failed
-- assertions and overflow are panics. A connection is the list of what its reads come to: bytes,
-- an error or a timeout; behind the last one the peer has closed it. The state of hardware is a
-- type of the backend, passed through each call. Log messages are left out.
--
-- Loops. The loops of the server and the client recur on the reads that are left. handle_client
-- takes fuel, a unit for each message and one more. The blocking Decoder's loops take one more
-- unit than there are reads. shift_words takes the length of the TMS vector, since each round
-- takes at least a byte off it. The bulk write takes a unit for each byte. The bulk read takes
-- 1024 units for each byte and 1024 more, since it gives up after 1024 reads without payload. In
-- shift_chunks, the loop that stashes TMS bits takes 6 units, since it stops at 6 bits, and the
-- others take one for each bit to go, since each round takes a bit. In these loops `none`, or for
-- the Decoder, shift_words and shift_chunks a panic, stands for fuel that ran out.
--
-- shift_chunks. The crate ftdi_mpsse is a parameter: a builder is the list of the calls made on
-- it, and its bytes are known by their number only. Shift/Pins says what the calls clock out on
-- the TDI and the TMS pin, and which bits reply to them: a TMS command shifts TMS bits at a fixed
-- TDI level and leaves the bit behind them on the TMS pin, the data commands shift TDI bits at
-- that TMS level, and a reply has whole bytes and a last byte with its bits at the upper end. A
-- place in a vector, an index and a mask in the code, is `at p` for the `p`th bit.
--
-- listen_on is a step relation: a round of the accept loop, or the end of any active client's
-- task, in any order. A client's task is one step, since it holds the backend's mutex from its
-- start to its end; its connection is a finite list of reads, so that a client that sends without
-- end is not one of the model's, and a write returns, although the source's write has no timeout.
-- Clock and polling: the number of polls that fit a timeout is a parameter of the bridge
-- (patience).
--
-- The system. Files, mapped memory and listeners are numbers that the calls give. What a process
-- holds is a list that is read off the system's state by a function, and the documented effect of
-- each call on it is a hypothesis. The programs' main ends where listen_on begins; Ctrl+C is a
-- turn of the accept loop.
--
-- Not modelled: the calls of the system, of rusb and of the prompt, and the list of USB devices,
-- which are parameters; clap's parsing of the command lines; benches; in the integration tests,
-- sockets and pauses.
pub mod Prelude
pub mod Text
pub mod Errors
pub mod Protocol
pub mod Codec
pub mod Rw
pub mod TokioCodec
pub mod Server
pub mod Client
pub mod DebugBridge
pub mod Ftdi
pub mod Examples
pub mod UnitTests
