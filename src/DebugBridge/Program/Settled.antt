-- ===== src/DebugBridge/Program/Settled.antt =====
-- What the debug bridge server comes to, and what it has open then.
use xvc_rs.Prelude.{
  ℕ, ◌≡◌, refl, sym, Bool, Option, some, none, ==_refl, List, ◌∷◌, Bytes, codes, Outcome, ok, err,
  panic,
}
use xvc_rs.Errors.{IoError}
use xvc_rs.Server.{SocketAddr}
use xvc_rs.DebugBridge.Select.{DeviceImpl, kernel_driver, uio_driver, dev_mem_driver}
use xvc_rs.DebugBridge.Os.{Os, ℤ, as_i64, pos, Resource, file, mapping, listener, Holds, Documented}
use xvc_rs.DebugBridge.Open.{
  Mapped, map_size, new_uio, new_with_path, new_dev_mem, drop_mapped, new_kernel_driver,
}
use xvc_rs.DebugBridge.Open.Held.{
  Maps, held-close, new_with_path-Holds, new_uio-Holds, held-drop_mapped, new_kernel_driver-Holds,
}
use xvc_rs.DebugBridge.Program.Named.{Named, device_impl-Named}
use xvc_rs.DebugBridge.Program.{
  Args, Backend, kernel, uio, dev_mem, Exit, printed, failed, panicked, serves, no_bridge,
  no_kernel_driver, no_uio_driver, path_or, found_kernel_driver, found_uio, run, run_kernel_driver,
  run_uio_driver, run_device, with_listener, with_device, device_impl, addr_of, main, drop_backend,
}

module _ (trim : Bytes → Bytes) (logs : Bool) {S : Type 0} (os : Os S)
    (held : S → List Resource) where
  abbrev pub dev_mem_path : Option Bytes → Bytes
  dev_mem_path none = codes "/dev/mem"
  dev_mem_path (some path) = path

  -- The backend of a device that was named or found, and what it has open. The second search for a
  -- path is made in the state `s`.
  pub data Opened (s : S) : DeviceImpl → Backend → Resource → Type 0 where
    opened_file :
        (path : Option Bytes) (p : Bytes) (f : ℕ)
        → path_or path (found_kernel_driver trim logs os s) ≡ some p
        → Opened s (kernel_driver path) (kernel f) (file f p)
    mapped_uio :
        (path : Option Bytes) (p : Bytes) (timeout : ℕ) (m : Mapped)
        → path_or path (found_uio trim logs os s) ≡ some p
        → m.poll_timeout ≡ timeout
        → Opened s (uio_driver path timeout) (uio m) (mapping m.mem map_size p (pos 0))
    mapped_memory :
        (path : Option Bytes) (address timeout : ℕ) (m : Mapped)
        → m.poll_timeout ≡ timeout
        → Opened s
            (dev_mem_driver path address timeout)
            (dev_mem m)
            (mapping m.mem map_size (dev_mem_path path) (as_i64 address))

  -- Why there is nothing to serve, and the line that says so.
  pub data Lacks (s : S) : Option DeviceImpl → Bytes → Type 0 where
    bridge : Lacks s none no_bridge
    kernel_path :
        found_kernel_driver trim logs os s ≡ none
        → Lacks s (some (kernel_driver none)) no_kernel_driver
    uio_path :
        (timeout : ℕ)
        → found_uio trim logs os s ≡ none
        → Lacks s (some (uio_driver none timeout)) no_uio_driver

  -- What is open while a device is served, and after that. `later` is the state behind `bind`.
  abbrev pub Settled : SocketAddr → Option DeviceImpl → S → List Resource → Exit × S → Type 0
  Settled addr device later before (printed line, s) = Lacks later device line × (held s ≡ before)
  Settled addr device later before (failed e, s) = held s ≡ before
  Settled addr device later before (panicked, s) = held s ≡ before
  Settled addr device later before (serves backend l, s) =
      (named : DeviceImpl) × (resource : Resource) × (device ≡ some named)
      × Opened later named backend resource
      × (held s ≡ resource ∷ listener l addr ∷ before)
      × (held (drop_backend trim logs os backend (os.close_listener l s)) ≡ before)

  module _ (doc : Documented os held) (addr : SocketAddr) (before : List Resource) (l : ℕ) where
    unbound : (s : S) → held s ≡ listener l addr ∷ before → held (os.close_listener l s) ≡ before
    unbound s e = rw (doc.unbinds l s, e, ==_refl l) refl

    unbound_behind :
        (f : ℕ) (path : Bytes) (s : S)
        → held s ≡ file f path ∷ listener l addr ∷ before
        → held (os.close_listener l s) ≡ file f path ∷ before
    unbound_behind f path s e = rw (doc.unbinds l s, e, ==_refl l) refl

    run_file-Settled :
        (path : Option Bytes) (p : Bytes) (later : S) (r : Outcome IoError ℕ × S)
        → path_or path (found_kernel_driver trim logs os later) ≡ some p
        → Holds os held
            (listener l addr ∷ before)
            (λ f s. held s ≡ file f p ∷ listener l addr ∷ before)
            r
        → Settled addr (some (kernel_driver path)) later before (run trim logs os kernel l r)
    unfolding run drop_backend
    run_file-Settled path p later (ok f, s) e h = (
      kernel_driver path,
      file f p,
      refl,
      opened_file path p f e,
      h,
      held-close os held doc f p before (os.close_listener l s) (unbound_behind f p s h),
    )
    run_file-Settled path p later (err x, s) e h = unbound s h
    run_file-Settled path p later (panic, s) e h = unbound s h

    run_mapped-Settled :
        (backend : Mapped → Backend) (device : DeviceImpl) (p : Bytes) (offset : ℤ) (timeout : ℕ)
        (later : S) (r : Outcome IoError Mapped × S)
        → ((m : Mapped)
            → m.poll_timeout ≡ timeout
            → Opened later device (backend m) (mapping m.mem map_size p offset))
        → ((m : Mapped) (s : S) → drop_backend trim logs os (backend m) s ≡ drop_mapped os m s)
        → Holds os held
            (listener l addr ∷ before)
            (Maps os held doc p offset timeout (listener l addr ∷ before))
            r
        → Settled addr (some device) later before (run trim logs os backend l r)
    unfolding run
    run_mapped-Settled backend device p offset timeout later (ok m, s) opened drops h = (
      device,
      mapping m.mem map_size p offset,
      refl,
      opened m h.2,
      h.0,
      rw (drops m (os.close_listener l s)) (
          held-drop_mapped os held doc p offset timeout before m (os.close_listener l s)
            (rw (doc.unbinds l s, h.0, ==_refl l) refl, h.1, h.2)),
    )
    run_mapped-Settled backend device p offset timeout later (err x, s) opened drops h = unbound s h
    run_mapped-Settled backend device p offset timeout later (panic, s) opened drops h = unbound s h

    run_kernel_driver-Settled :
        (path found : Option Bytes) (later : S)
        → found ≡ path_or path (found_kernel_driver trim logs os later)
        → held later ≡ listener l addr ∷ before
        → Settled addr
            (some (kernel_driver path))
            later
            before
            (run_kernel_driver trim logs os l found later)
    unfolding run_kernel_driver
    run_kernel_driver-Settled none none later e h = (kernel_path (sym e), unbound later h)
    run_kernel_driver-Settled (some p) none later e h = cc
    run_kernel_driver-Settled path (some p) later e h =
        run_file-Settled path p later (new_kernel_driver os logs p later) (sym e)
          (rw h at (new_kernel_driver-Holds os held doc logs p later))

    run_uio_driver-Settled :
        (path found : Option Bytes) (timeout : ℕ) (later : S)
        → found ≡ path_or path (found_uio trim logs os later)
        → held later ≡ listener l addr ∷ before
        → Settled addr
            (some (uio_driver path timeout))
            later
            before
            (run_uio_driver trim logs os l found timeout later)
    unfolding run_uio_driver drop_backend
    run_uio_driver-Settled none none timeout later e h = (uio_path timeout (sym e), unbound later h)
    run_uio_driver-Settled (some p) none timeout later e h = cc
    run_uio_driver-Settled path (some p) timeout later e h =
        run_mapped-Settled uio (uio_driver path timeout) p (pos 0) timeout later
          (new_uio os p timeout later) (λ m t. mapped_uio path p timeout m (sym e) t) (λ m s. refl)
          (rw h at (new_uio-Holds os held doc p timeout later))

    run_memory-Settled :
        (path : Option Bytes) (address timeout : ℕ) (later : S)
        → held later ≡ listener l addr ∷ before
        → Settled addr (some (dev_mem_driver path address timeout)) later before (
            run trim logs os dev_mem l
              (new_with_path os (dev_mem_path path) (as_i64 address) timeout later))
    unfolding drop_backend
    run_memory-Settled path address timeout later h =
        run_mapped-Settled dev_mem (dev_mem_driver path address timeout) (dev_mem_path path)
          (as_i64 address) timeout later
          (new_with_path os (dev_mem_path path) (as_i64 address) timeout later)
          (λ m t. mapped_memory path address timeout m t) (λ m s. refl)
          (rw h at
            (new_with_path-Holds os held doc (dev_mem_path path) (as_i64 address) timeout later))

    run_device-Settled :
        (device : DeviceImpl) (later : S)
        → held later ≡ listener l addr ∷ before
        → Settled addr (some device) later before (run_device trim logs os l device later)
    unfolding run_device new_dev_mem
    run_device-Settled (kernel_driver path) later h = run_kernel_driver-Settled path _ later refl h
    run_device-Settled (uio_driver path timeout) later h =
        run_uio_driver-Settled path _ timeout later refl h
    run_device-Settled (dev_mem_driver (some path) address timeout) later h =
        run_memory-Settled (some path) address timeout later h
    run_device-Settled (dev_mem_driver none address timeout) later h =
        run_memory-Settled none address timeout later h

  with_listener-Settled :
      Documented os held
      → (addr : SocketAddr) (device : DeviceImpl) (before : List Resource)
        (r : Outcome IoError ℕ × S)
      → Holds os held before (λ l s. held s ≡ listener l addr ∷ before) r
      → Settled addr (some device) r.1 before (with_listener trim logs os device r)
  unfolding with_listener
  with_listener-Settled doc addr device before (ok l, s) h =
      run_device-Settled doc addr before l device s h
  with_listener-Settled doc addr device before (err e, s) h = h
  with_listener-Settled doc addr device before (panic, s) h = h

  with_device-Settled :
      Documented os held
      → (addr : SocketAddr) (device : Option DeviceImpl) (s : S)
      → Settled addr device (os.bind addr s).1 (held s) (with_device trim logs os addr device s)
  unfolding with_device
  with_device-Settled doc addr none s = (bridge, refl)
  with_device-Settled doc addr (some device) s =
      with_listener-Settled doc addr device (held s) (os.bind addr s) (doc.binds addr s)

  -- Let the system's calls work as documented: opening a file, mapping an open file and binding a
  -- listener add what they open to what the process holds, or fail and add nothing, a mapping is not
  -- null, closing and unmapping release what they are given, and reading the driver's properties
  -- opens and closes nothing. Then `main` of the debug bridge server uses the device of the
  -- arguments, or else the kernel driver if its file exists, or else the UIO driver of the bridge
  -- that the search finds, with a timeout of 1000 microseconds, or else none. If it serves, the
  -- process holds what it held before, the listener of the address of the arguments, and one
  -- resource of that device and no other: the kernel driver's file at the path that was named or
  -- found, or the mapping of 65536 bytes of the UIO device at offset 0, or of the memory device,
  -- `/dev/mem` if none is named, at the address as a signed number, with the device's timeout; and
  -- closing the listener and dropping the backend release these two. If it ends without serving, by
  -- a message, an error or a panic, the process holds what it held before; and it ends by a message
  -- only where there is no device, or where the device came without a path and none was found behind
  -- the binding.
  pub main-Settled :
      Documented os held
      → (args : Args) (s : S)
      → Named trim logs os args s (device_impl trim logs os args s)
        × Settled
            (addr_of trim logs os args)
            (device_impl trim logs os args s)
            (os.bind (addr_of trim logs os args) s).1
            (held s)
            (main trim logs os args s)
  unfolding main
  main-Settled doc args s = (
    device_impl-Named trim logs os args s,
    with_device-Settled doc (addr_of trim logs os args) (device_impl trim logs os args s) s,
  )
