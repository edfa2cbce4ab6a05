-- ===== src/Ftdi/Program.antt =====
-- `main` of xvc-server-usb/src/main.rs.
pub mod Ready
use xvc_rs.Prelude.{ℕ, Bool, not, ◌&&◌, Option, some, none, List, Bytes, Outcome, ok, err, panic}
use xvc_rs.Errors.{IoError}
use xvc_rs.Server.{SocketAddr, default_config}
use xvc_rs.Ftdi.Usb.{UsbHandle, Pipes, pipes}
use xvc_rs.Ftdi.Setup.{Control, ftdi_init}
use xvc_rs.Ftdi.Discovery.{Device, FtdiJtagDevice, list_available_devices}
use xvc_rs.Ftdi.Disambiguation.{disambiguate_available_devices}

pub record Args : Type 0 where
  pub port : ℕ
  pub ip : Bytes
  pub ftdi_port : ℕ
  pub loopback : Bool
  pub non_interactive : Bool

-- How `main` comes to its end: it returns since no device is taken; it returns an error of rusb, or of
-- the system; it panics; or it serves clients with a device and a listener, in `listen_on`.
pub data Exit (E D : Type 0) : Type 0 where
  no_device : Exit E D
  usb_failed : E → Exit E D
  bind_failed : IoError → Exit E D
  panicked : Exit E D
  serves : FtdiJtagDevice D → ℕ → Exit E D

-- What `main` calls: rusb on an open device, `TcpListener::bind`, inquire's prompt; and whether the
-- standard input and the standard error are terminals. `init_cmd` is `INIT_CMD` or `INIT_CMD_LOOPBACK`.
pub record World (H E D : Type 0) : Type 0 where
  pub devices : Outcome E (List (Device E D))
  pub control : FtdiJtagDevice D → Control H E
  pub usb : FtdiJtagDevice D → UsbHandle H E
  pub bmreqtype_out : ℕ
  pub init_cmd : Bool → Bytes
  pub bind : SocketAddr → H → Outcome IoError ℕ × H
  pub stdin_is_terminal : Bool
  pub stderr_is_terminal : Bool
  pub trim_end : Bytes → Bytes
  pub select : List (Bytes × FtdiJtagDevice D) → Option (Bytes × FtdiJtagDevice D)

module _ {H E D : Type 0} (world : World H E D) (args : Args) where
  open world use {
    devices, control, usb, bmreqtype_out, init_cmd, bind, stdin_is_terminal, stderr_is_terminal,
    trim_end, select,
  }

  -- The device's handle at its endpoints.
  abbrev pub pipes_of : FtdiJtagDevice D → Pipes H E
  pipes_of d = pipes (usb d) d.bulk_out.address d.bulk_in.address d.timeout

  abbrev pub init : FtdiJtagDevice D → H → Outcome E (Unit {0}) × H
  init d = ftdi_init (control d) d.iface bmreqtype_out (pipes_of d) init_cmd args.loopback

  abbrev pub available : Outcome E (List (FtdiJtagDevice D))
  available = list_available_devices devices args.ftdi_port default_config.read_write_timeout

  abbrev pub interactive : Bool
  interactive = not args.non_interactive && (stdin_is_terminal && stderr_is_terminal)

  -- What follows `TcpListener::bind(addr)`.
  unfoldable pub with_listener : FtdiJtagDevice D → Outcome IoError ℕ × H → Exit E D × H
  with_listener d (ok listener, h) = (serves d listener, h)
  with_listener d (err e, h) = (bind_failed e, h)
  with_listener d (panic, h) = (panicked, h)

  -- What follows `device.ftdi_init(args.loopback)`.
  unfoldable pub initialised : FtdiJtagDevice D → Outcome E (Unit {0}) × H → Exit E D × H
  unfolding with_listener
  initialised d (ok _, h) = with_listener d (bind (record { ip = args.ip; port = args.port }) h)
  initialised d (err e, h) = (usb_failed e, h)
  initialised d (panic, h) = (panicked, h)

  -- `let Some(device) = … else { return Ok(()) }`, and what follows.
  unfoldable pub with_device : Option (FtdiJtagDevice D) → H → Exit E D × H
  unfolding initialised
  with_device none h = (no_device, h)
  with_device (some d) h = initialised d (init d h)

  -- What follows `list_available_devices`.
  unfoldable pub with_devices : Outcome E (List (FtdiJtagDevice D)) → H → Exit E D × H
  unfolding with_device
  with_devices (ok found) h =
      with_device (disambiguate_available_devices trim_end select found interactive) h
  with_devices (err e) h = (usb_failed e, h)
  with_devices panic h = (panicked, h)

  unfoldable pub main : H → Exit E D × H
  unfolding with_devices
  main h = with_devices available h
