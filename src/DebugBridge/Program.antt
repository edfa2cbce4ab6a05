-- ===== src/DebugBridge/Program.antt =====
-- `main` of xvc-server-debugbridge/src/main.rs.
pub mod Named
pub mod Settled
pub mod Serves
use xvc_rs.Prelude.{
  ℕ, Bool, if◌then◌else◌, Option, some, none, Bytes, codes, Outcome, ok, err, panic, then_do,
}
use xvc_rs.Errors.{IoError}
use xvc_rs.Server.{SocketAddr}
use xvc_rs.DebugBridge.Select.{
  DeviceImpl, kernel_driver, uio_driver, dev_mem_driver, kernel_driver_path, uio_driver_path,
  choose,
}
use xvc_rs.DebugBridge.Os.{Os, as_i64}
use xvc_rs.DebugBridge.Open.{
  Mapped, new_uio, new_with_path, new_dev_mem, drop_mapped, drop_uio, new_kernel_driver,
}

pub record Args : Type 0 where
  pub port : ℕ
  pub ip : Bytes
  pub device : Option DeviceImpl

-- The backend that the server is given, as it was opened.
pub data Backend : Type 0 where
  kernel : ℕ → Backend
  uio : Mapped → Backend
  dev_mem : Mapped → Backend

-- How `main` comes to its end: it has printed a line and returns; it returns an error; it panics; or
-- it serves clients with a backend and a listener, in `listen_on`.
pub data Exit : Type 0 where
  printed : Bytes → Exit
  failed : IoError → Exit
  panicked : Exit
  serves : Backend → ℕ → Exit

abbrev pub no_bridge : Bytes
no_bridge =
    codes
      "No debug bridge could be auto detected. Use xvc-server kernel-driver <path>, xvc-server uio-driver <path>, or xvc-server dev-mem-driver <address> to manually specify a driver."

abbrev pub no_kernel_driver : Bytes
no_kernel_driver =
    codes
      "No debug bridge could be detected. Explicitly specify a path using xvc-server kernel-driver <path> to manually specify a driver."

abbrev pub no_uio_driver : Bytes
no_uio_driver =
    codes
      "No debug bridge could be detected. Explicitly specify a path using xvc-server uio-driver <path> to manually specify a driver."

-- `path.or_else(…)`
abbrev pub path_or : Option Bytes → Option Bytes → Option Bytes
path_or (some path) found = some path
path_or none found = found

-- `str::trim`, and whether messages of the level `info` are written
module _ (trim : Bytes → Bytes) (logs : Bool) {S : Type 0} (os : Os S) where
  -- `kernel_driver_path()` and `uio_driver_path()`, by what the system answers.
  abbrev pub found_kernel_driver : S → Option Bytes
  found_kernel_driver s = kernel_driver_path (os.exists (codes "/dev/xilinx_xvc_driver") s)

  abbrev pub found_uio : S → Option Bytes
  found_uio s = uio_driver_path trim (os.uio_class s)

  -- `run(…::new(…)?, config, listener, token)`: where `new` fails, the listener is dropped.
  unfoldable pub run : {B : Type 0} → (B → Backend) → ℕ → Outcome IoError B × S → Exit × S
  run backend listener (ok b, s) = (serves (backend b) listener, s)
  run backend listener (err e, s) = (failed e, os.close_listener listener s)
  run backend listener (panic, s) = (panicked, os.close_listener listener s)

  -- The branches of `match path.or_else(…)`.
  unfoldable pub run_kernel_driver : ℕ → Option Bytes → S → Exit × S
  unfolding run
  run_kernel_driver listener none s = (printed no_kernel_driver, os.close_listener listener s)
  run_kernel_driver listener (some path) s = run kernel listener (new_kernel_driver os logs path s)

  unfoldable pub run_uio_driver : ℕ → Option Bytes → ℕ → S → Exit × S
  unfolding run
  run_uio_driver listener none poll_timeout s =
      (printed no_uio_driver, os.close_listener listener s)
  run_uio_driver listener (some path) poll_timeout s =
      run uio listener (new_uio os path poll_timeout s)

  -- `match device_impl`
  unfoldable pub run_device : ℕ → DeviceImpl → S → Exit × S
  unfolding run_kernel_driver run_uio_driver
  run_device listener (kernel_driver path) s =
      run_kernel_driver listener (path_or path (found_kernel_driver s)) s
  run_device listener (uio_driver path poll_timeout_us) s =
      run_uio_driver listener (path_or path (found_uio s)) poll_timeout_us s
  run_device listener (dev_mem_driver (some path) address poll_timeout_us) s =
      run dev_mem listener (new_with_path os path (as_i64 address) poll_timeout_us s)
  run_device listener (dev_mem_driver none address poll_timeout_us) s =
      run dev_mem listener (new_dev_mem os (as_i64 address) poll_timeout_us s)

  -- What follows `TcpListener::bind(addr)`.
  unfoldable pub with_listener : DeviceImpl → Outcome IoError ℕ × S → Exit × S
  unfolding run_device
  with_listener device (ok listener, s) = run_device listener device s
  with_listener device (err e, s) = (failed e, s)
  with_listener device (panic, s) = (panicked, s)

  -- `let Some(device_impl) = device_impl else { … }`, and what follows.
  unfoldable pub with_device : SocketAddr → Option DeviceImpl → S → Exit × S
  unfolding with_listener
  with_device addr none s = (printed no_bridge, s)
  with_device addr (some device) s = with_listener device (os.bind addr s)

  abbrev pub device_impl : Args → S → Option DeviceImpl
  device_impl args s = choose args.device (found_kernel_driver s) (found_uio s)

  abbrev pub addr_of : Args → SocketAddr
  addr_of args = record { ip = args.ip; port = args.port }

  unfoldable pub main : Args → S → Exit × S
  unfolding with_device choose
  main args s = with_device (addr_of args) (device_impl args s) s

  -- The backend is dropped.
  unfoldable pub drop_backend : Backend → S → S
  unfolding drop_mapped
  drop_backend (kernel file) s = os.close file s
  drop_backend (uio backend) s = drop_uio os backend s
  drop_backend (dev_mem backend) s = drop_mapped os backend s
