-- ===== src/Examples/Trickle.antt =====
-- `shift_chunks` and the FTDI backend on a handle that takes a byte at a time.
use xvc_rs.Prelude.{
  ℕ, ◌/◌, ◌%◌, ◌≡◌, refl, [], ◌∷◌, ◌++◌, arith, Bytes, Outcome, ok, err, panic, length, take, AllU8,
  sym, ap,
}
use xvc_rs.Errors.{IoError}
use xvc_rs.Client.{closed}
use xvc_rs.Ftdi.Discovery.{FtdiJtagDevice}
use xvc_rs.Ftdi.Usb.{UsbHandle, Pipes, pipes, write, read}
use xvc_rs.Ftdi.Usb.Write.{Writes}
use xvc_rs.Ftdi.Usb.Read.{Reads}
use xvc_rs.Ftdi.Bits.Vector.{at}
use xvc_rs.Ftdi.Shift.Tms.{chunk}
use xvc_rs.Ftdi.Shift.Fill.{Filled, fill-Filled}
use xvc_rs.Ftdi.Shift.Receive.{Received, receive-Got}
use xvc_rs.Ftdi.Shift.Total.{shift_chunks-Shifts}
use xvc_rs.Ftdi.Shift.Exchange.{ReadsU8, Shifts}
use xvc_rs.Ftdi.Shift.{fill}
use xvc_rs.Ftdi.Shift.Chunks.{shift_chunks, Shifted, receive}
use xvc_rs.Prelude.{none, ◌==◌, if◌then◌else◌}
use xvc_rs.Protocol.{Message}
use xvc_rs.Server.{Config}
use xvc_rs.Client
use xvc_rs.Ftdi.Backend.{ftdi_backend}
use xvc_rs.Examples.Mpsse.{mpsse}

abbrev tdi_bytes : Bytes
tdi_bytes = 0xFE ∷ 0x01 ∷ []

abbrev tms_bytes : Bytes
tms_bytes = 0x05 ∷ 0x00 ∷ []

tdi_bytes-AllU8 : AllU8 tdi_bytes
tdi_bytes-AllU8 = (omega arith, (omega arith, tt))

tms_bytes-AllU8 : AllU8 tms_bytes
tms_bytes-AllU8 = (omega arith, (omega arith, tt))

-- It takes a byte at a time, and every packet that it gives has one byte behind the status bytes.
abbrev trickle_handle : UsbHandle Bytes IoError
trickle_handle = record {
  write = λ endpoint values timeout h.
      if endpoint == 0x02
      then (ok (length (take 1 values)), h ++ take 1 values)
      else (err closed, h);
  read = λ endpoint n timeout h.
      if endpoint == 0x81 then (ok (take n (0x32 ∷ 0x60 ∷ 0xA5 ∷ [])), h) else (err closed, h);
  timed_out = closed;
}

abbrev trickle_device : FtdiJtagDevice (UsbHandle Bytes IoError)
trickle_device = record {
  handle = trickle_handle;
  info = record {
    manufacturer = none;
    product = none;
    serial = none;
    product_id = 0x6010;
    bus_number = 1;
    address = 4;
  };
  iface = 0;
  bulk_out = record { address = 0x02; request_size = 512 };
  bulk_in = record { address = 0x81; request_size = 8 };
  timeout = 1000;
}

abbrev trickle : Pipes Bytes IoError
trickle = pipes trickle_handle 0x02 0x81 1000

abbrev all_sent : Bytes → Bytes
all_sent h = h

trickle-Writes :
    (h : Bytes) (c : ℕ) (values : Bytes)
    → Writes trickle all_sent h (c ∷ values) (trickle.write (c ∷ values) h)
trickle-Writes h c values = Writes.takes 1 (h ++ c ∷ []) (omega arith) (omega arith) refl

trickle-Reads : (wanted : ℕ) (h : Bytes) → Reads trickle 8 wanted (trickle.read 8 h)
trickle-Reads wanted h = Reads.gives (0x32 ∷ 0x60 ∷ 0xA5 ∷ []) h (omega arith)

value_of : Outcome IoError Bytes → Bytes
value_of (ok buf) = buf
value_of (err e) = []
value_of panic = []

trickle-ReadsU8 : ReadsU8 trickle 8
unfolding value_of
trickle-ReadsU8 h h' buf e =
    let same : 0x32 ∷ 0x60 ∷ 0xA5 ∷ [] ≡ buf = ap (λ p. value_of p.0) e in
    rw (sym same) (omega arith, (omega arith, (omega arith, tt)))

fill-Filled_example :
    Filled {E = IoError} mpsse 512 tms_bytes tdi_bytes 9 0
      (fill {E = IoError} mpsse 512 tms_bytes tdi_bytes 9 (chunk [] [] 0 9 0))
fill-Filled_example =
    fill-Filled {E = IoError} mpsse 512 tms_bytes tdi_bytes 9 0 tms_bytes-AllU8 tdi_bytes-AllU8
      (omega arith) refl (omega arith) (omega arith) (omega arith)

receive-Got_example : Received {E = IoError} (0xA5 ∷ 0x80 ∷ []) 2 (8 ∷ 1 ∷ []) 0 0 [] (
    receive {E = IoError}
      (0xA5 ∷ 0x80 ∷ [])
      (8 ∷ 1 ∷ [])
      (record { tdo = 0 ∷ 0 ∷ []; place = at 0; rx_index = 0; rx_bit = 1 }))
receive-Got_example =
    receive-Got {E = IoError} (0xA5 ∷ 0x80 ∷ []) 2 (8 ∷ 1 ∷ []) 0 0 1 [] (0 ∷ 0 ∷ [])
      (omega arith, (omega arith, tt)) (omega arith, (omega arith, tt)) (omega arith) (omega arith)
      (refl, (omega arith, (omega arith, tt)), refl, λ j le lt. absurd (omega arith))

shift_chunks-Shifts_example :
    Shifts trickle mpsse 512 8 tms_bytes tdi_bytes all_sent 2 9 0 []
      (0 ∷ 0 ∷ [])
      []
      (shift_chunks trickle mpsse 512 8 tms_bytes tdi_bytes 9 (0 ∷ 0 ∷ []) [])
shift_chunks-Shifts_example =
    shift_chunks-Shifts trickle mpsse 512 8 tms_bytes tdi_bytes all_sent 9 (0 ∷ 0 ∷ []) []
      trickle-Writes trickle-Reads trickle-ReadsU8 tms_bytes-AllU8 tdi_bytes-AllU8
      (omega arith, (omega arith, tt)) refl refl (omega arith) (omega arith) (omega arith)

-- The clock command of the application note: the divider's low and high byte.
abbrev set_clock : ℕ → Bytes
set_clock count = 0x8A ∷ 0x86 ∷ (count % 256) ∷ (count / 256) ∷ []

abbrev limit : Config
limit = record { max_vector_size = 4; read_write_timeout = 1 }

abbrev request : Message
request = Message.shift 8 (0 ∷ []) (0xFE ∷ [])

abbrev shifted : Shifted Bytes IoError
shifted = (ftdi_backend trickle_device mpsse set_clock).shift 8 (0 ∷ []) (0xFE ∷ []) (0 ∷ []) []
