-- ===== src/Ftdi/Backend.antt =====
-- `FtdiServer` of xvc-server-usb/src/ftdi_server.rs, as the server's backend.
use xvc_rs.Prelude.{ℕ, Bytes, Outcome, length}
use xvc_rs.TokioCodec.Buffer.{Buffer}
use xvc_rs.Server.{XvcServer}
use xvc_rs.Client
use xvc_rs.Ftdi.Clock
use xvc_rs.Ftdi.Usb
use xvc_rs.Ftdi.Usb.{UsbHandle, Pipes, pipes, ended}
use xvc_rs.Ftdi.Discovery.{FtdiJtagDevice}
use xvc_rs.Ftdi.Shift.{Mpsse}
use xvc_rs.Ftdi.Shift.Chunks.{shift_chunks}
use xvc_rs.Ftdi.Shift.Sizes.{length-shift_chunks}

module _ {H E : Type 0} (device : FtdiJtagDevice (UsbHandle H E)) (mpsse : Mpsse)
    (set_clock : ℕ → Bytes) where
  -- The device's handle at its endpoints, and their packets' sizes.
  abbrev pub handle : Pipes H E
  handle = pipes device.handle device.bulk_out.address device.bulk_in.address device.timeout

  abbrev pub out_size : ℕ
  out_size = device.bulk_out.request_size

  abbrev pub in_size : ℕ
  in_size = device.bulk_in.request_size

  -- `self.device.write(cmd.as_slice())`, where `set_clock` gives the bytes of the command that
  -- `MpsseCmdBuilder::set_clock` makes.
  unfoldable pub write_clock : ℕ → H → Outcome E (Unit {0}) × H
  write_clock count h = ended (Usb.write handle (length (set_clock count)) (set_clock count) h) h

  -- `impl XvcServer for FtdiServer`
  abbrev pub ftdi_backend : XvcServer H E
  ftdi_backend = record {
    set_tck = Clock.set_tck write_clock;
    shift =
        λ num_bits tms tdi tdo h. shift_chunks handle mpsse out_size in_size tms tdi num_bits tdo h;
    length-shift = λ num_bits tms tdi tdo h.
        length-shift_chunks handle mpsse out_size in_size tms tdi num_bits tdo h;
  }
