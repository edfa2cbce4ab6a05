-- ===== src/Examples/Opened.antt =====
-- The debug bridge server on a system that opens all that it is asked for.
use xvc_rs.Prelude.{
  ℕ, suc, ◌≡◌, refl, ap, Bool, true, false, some, none, List, [], ◌∷◌, ◌++◌, arith, Bytes, codes,
  Outcome, ok, take,
}
use xvc_rs.Errors.{IoError}
use xvc_rs.Text.{from_utf8}
use xvc_rs.Server.{SocketAddr}
use xvc_rs.DebugBridge.Select.{entry, dev_mem_driver, search, uio_driver_path, choose}
use xvc_rs.DebugBridge.Properties.{compat_string}
use xvc_rs.DebugBridge.Os.{
  Os, pos, Resource, file, mapping, listener, is_file, is_mapping, is_listener, release, Documented,
}
use xvc_rs.DebugBridge.Open.{map_size, new_uio}
use xvc_rs.DebugBridge.Program.{Args, uio, serves, device_impl, main}
use xvc_rs.DebugBridge.Program.Named.{Named}
use xvc_rs.DebugBridge.Program.Settled.{Settled, main-Settled}
use xvc_rs.DebugBridge.Program.Serves.{Grants, Served, main-Served}

-- What is open, and the next number.
record System : Type 0 where
  opened : List Resource
  next : ℕ

-- The path of the file that was opened last.
abbrev last_path : List Resource → Bytes
last_path [] = []
last_path (file f path ∷ rs) = path
last_path (mapping p n path offset ∷ rs) = []
last_path (listener l addr ∷ rs) = []

abbrev adds_one : (ℕ → Resource) → System → Outcome IoError ℕ × System
adds_one resource s =
    (ok (suc s.next), record { opened = resource (suc s.next) ∷ s.opened; next = suc s.next })

abbrev frees : (Resource → Bool) → System → System
frees test s = record { opened = release test s.opened; next = s.next }

abbrev system : Os System
system = record {
  exists = λ path s. false;
  uio_class = λ s. some (
      entry (codes "uio0") (some (codes "gpio\n"))
      ∷ entry (codes "uio2") (some (codes "debug_bridge\n"))
      ∷ []);
  open_file = λ path s. adds_one (λ f. file f path) s;
  close = λ f s. frees (is_file f) s;
  mmap = λ size f offset s. adds_one (λ p. mapping p size (last_path s.opened) offset) s;
  munmap = λ p size s. frees (is_mapping p size) s;
  xvc_read_properties = λ f s. (
    ok (record {
      debug_bridge_base_addr = 0x1000;
      debug_bridge_size = 0x100;
      debug_bridge_compat_string = codes "xlnx" ++ 0 ∷ 0 ∷ [];
    }),
    s,
  );
  bind = λ addr s. adds_one (λ l. listener l addr) s;
  close_listener = λ l s. frees (is_listener l) s;
}

abbrev opened_by : System → List Resource
opened_by s = s.opened

abbrev without_newline : Bytes → Bytes
without_newline s = take 12 s

system-Documented : Documented system opened_by
system-Documented = record {
  opens = λ path s. refl;
  closes = λ f s. refl;
  maps = λ size f path offset s others e. (
    ap (λ (rs : List Resource). mapping (suc s.next) size (last_path rs) offset ∷ s.opened) e,
    omega arith,
  );
  unmaps = λ p size s. refl;
  reads = λ f s. refl;
  binds = λ addr s. refl;
  unbinds = λ l s. refl;
}

xlnx :
    compat_string (record {
      debug_bridge_base_addr = 0x1000;
      debug_bridge_size = 0x100;
      debug_bridge_compat_string = codes "xlnx" ++ 0 ∷ 0 ∷ [];
    })
    ≡ ok (codes "xlnx")
unfolding compat_string from_utf8
xlnx = refl

system-Grants : Grants without_newline true system
system-Grants = record {
  opens = λ path s. tt;
  maps = λ size f offset s. tt;
  reads = λ f s. (codes "xlnx", xlnx);
  binds = λ addr s. tt;
}

abbrev started : System
started = record { opened = []; next = 0 }

abbrev no_args : Args
no_args = record { port = 2542; ip = 0 ∷ 0 ∷ 0 ∷ 0 ∷ []; device = none }

abbrev any_address : SocketAddr
any_address = record { ip = 0 ∷ 0 ∷ 0 ∷ 0 ∷ []; port = 2542 }

-- The bridge is found, and is served on the default port.
main_finds : main without_newline true system no_args started ≡ (
  serves (uio (record { mem = 3; poll_timeout = 1000 })) 1,
  record {
    opened = mapping 3 map_size (codes "/dev/uio2") (pos 0) ∷ listener 1 any_address ∷ [];
    next = 3;
  },
)
unfolding main search uio_driver_path new_uio
main_finds = refl

main-Settled_example :
    Named without_newline true system no_args started
      (device_impl without_newline true system no_args started)
    × Settled without_newline true system opened_by any_address
        (device_impl without_newline true system no_args started)
        (system.bind any_address started).1
        []
        (main without_newline true system no_args started)
main-Settled_example =
    main-Settled without_newline true system opened_by system-Documented no_args started

abbrev memory_args : Args
memory_args = record {
  port = 2542;
  ip = 0 ∷ 0 ∷ 0 ∷ 0 ∷ [];
  device = some (dev_mem_driver none 0xA0000000 500);
}

main-Served_example :
    Served without_newline true system opened_by any_address
      (dev_mem_driver none 0xA0000000 500)
      (system.bind any_address started).1
      []
      (main without_newline true system memory_args started)
unfolding choose
main-Served_example =
    main-Served without_newline true system opened_by system-Grants system-Documented memory_args
      started (dev_mem_driver none 0xA0000000 500) refl tt
