-- ===== src/DebugBridge/Program/Serves.antt =====
-- The debug bridge server serves where the system refuses nothing.
use xvc_rs.Prelude.{
  ℕ, ◌≡◌, refl, ◌≢◌, Bool, true, false, Option, some, none, List, ◌∷◌, Bytes, codes, Outcome, ok,
  err, panic, then_do,
}
use xvc_rs.Errors.{IoError}
use xvc_rs.Server.{SocketAddr}
use xvc_rs.DebugBridge.Select.{DeviceImpl, kernel_driver, uio_driver, dev_mem_driver}
use xvc_rs.DebugBridge.Properties.{XvcProperties, compat_string}
use xvc_rs.DebugBridge.Os.{Os, ℤ, pos, as_i64, Resource, listener, Documented}
use xvc_rs.DebugBridge.Program.Settled.{Opened, Settled, main-Settled}
use xvc_rs.DebugBridge.Open.{
  Mapped, mmap_file, new_uio, new_with_path, new_dev_mem, log_properties, or_close,
  new_kernel_driver,
}
use xvc_rs.DebugBridge.Program.{
  Args, Backend, Exit, printed, failed, panicked, serves, path_or, found_kernel_driver, found_uio,
  run, run_kernel_driver, run_uio_driver, run_device, with_listener, with_device, device_impl,
  addr_of, main, drop_backend,
}

abbrev pub Any : {A : Type 0} → A → Type 0
Any a = Unit {0}

module _ {S : Type 0} where
  -- A call that succeeds, with a value of which `P` holds.
  abbrev pub Succeeds : {A : Type 0} → (A → Type 0) → Outcome IoError A × S → Type 0
  Succeeds P (ok a, s) = P a
  Succeeds P (err e, s) = ⊥
  Succeeds P (panic, s) = ⊥

  Succeeds-then_do :
      {A B : Type 0} (P : A → Type 0) (Q : B → Type 0) (r : Outcome IoError A × S)
      (next : A → S → Outcome IoError B × S)
      → Succeeds P r
      → ((a : A) (s : S) → P a → Succeeds Q (next a s))
      → Succeeds Q (then_do r next)
  Succeeds-then_do P Q (ok a, s) next h k = k a s h
  Succeeds-then_do P Q (err e, s) next h k = absurd h
  Succeeds-then_do P Q (panic, s) next h k = absurd h

module _ (trim : Bytes → Bytes) (logs : Bool) {S : Type 0} (os : Os S) where
  -- The system refuses no call, and the driver's string is a text.
  pub record Grants : Type 0 where
    pub opens : (path : Bytes) (s : S) → Succeeds (Any {A = ℕ}) (os.open_file path s)
    pub maps : (size f : ℕ) (offset : ℤ) (s : S) → Succeeds (Any {A = ℕ}) (os.mmap size f offset s)
    pub reads :
        (f : ℕ) (s : S)
        → Succeeds
            (λ properties. (text : Bytes) × (compat_string properties ≡ ok text))
            (os.xvc_read_properties f s)
    pub binds : (addr : SocketAddr) (s : S) → Succeeds (Any {A = ℕ}) (os.bind addr s)

  -- `main` serves clients.
  abbrev pub Serving : Exit × S → Type 0
  Serving (serves backend l, s) = Unit {0}
  Serving (printed line, s) = ⊥
  Serving (failed e, s) = ⊥
  Serving (panicked, s) = ⊥

  -- The device comes with a path, or one is found.
  abbrev pub HasPath : DeviceImpl → S → Type 0
  HasPath (kernel_driver path) s = path_or path (found_kernel_driver trim logs os s) ≢ none
  HasPath (uio_driver path timeout) s = path_or path (found_uio trim logs os s) ≢ none
  HasPath (dev_mem_driver path address timeout) s = Unit {0}

  module _ (grants : Grants) where
    new_with_path-Succeeds :
        (path : Bytes) (address : ℤ) (timeout : ℕ) (s : S)
        → Succeeds (Any {A = Mapped}) (new_with_path os path address timeout s)
    unfolding new_with_path mmap_file
    new_with_path-Succeeds path address timeout s =
        Succeeds-then_do (Any {A = ℕ}) (Any {A = Mapped}) (os.open_file path s) _
          (grants.opens path s)
          λ f s₁ _.
            Succeeds-then_do (Any {A = ℕ}) (Any {A = Mapped}) (mmap_file os f address s₁)
              (λ p s₂. (ok (record { mem = p; poll_timeout = timeout }), s₂))
              (mapped f (os.mmap 0x10000 f address s₁) (grants.maps 0x10000 f address s₁))
              λ p s₂ _. tt
      where
        mapped :
            (f : ℕ) (r : Outcome IoError ℕ × S)
            → Succeeds (Any {A = ℕ}) r
            → Succeeds (Any {A = ℕ}) (r.0, os.close f r.1)
        mapped f (ok p, s') h = tt
        mapped f (err e, s') h = absurd h
        mapped f (panic, s') h = absurd h

    new_kernel_driver-Succeeds :
        (path : Bytes) (s : S) → Succeeds (Any {A = ℕ}) (new_kernel_driver os logs path s)
    unfolding new_kernel_driver
    new_kernel_driver-Succeeds path s =
        Succeeds-then_do (Any {A = ℕ}) (Any {A = ℕ}) (os.open_file path s) _ (grants.opens path s)
          λ f s₁ _. logged f logs (os.xvc_read_properties f s₁) (grants.reads f s₁)
      where
        logged :
            (f : ℕ) (logs : Bool) (r : Outcome IoError XvcProperties × S)
            → Succeeds (λ properties. (text : Bytes) × (compat_string properties ≡ ok text)) r
            → Succeeds
                (Any {A = ℕ})
                (or_close os f (then_do r λ properties s₂. (log_properties os logs properties, s₂)))
        logged f false (ok properties, s₂) h = tt
        logged f true (ok properties, s₂) (text, e) = rw (e, log_properties, or_close) tt
        logged f logs (err x, s₂) h = absurd h
        logged f logs (panic, s₂) h = absurd h

    run-Serving :
        {B : Type 0} (backend : B → Backend) (l : ℕ) (r : Outcome IoError B × S)
        → Succeeds Any r
        → Serving (run trim logs os backend l r)
    unfolding run
    run-Serving backend l (ok b, s) h = tt
    run-Serving backend l (err e, s) h = h
    run-Serving backend l (panic, s) h = h

    run_device-Serving :
        (l : ℕ) (device : DeviceImpl) (s : S)
        → HasPath device s
        → Serving (run_device trim logs os l device s)
    unfolding run_device new_dev_mem new_uio
    run_device-Serving l (kernel_driver path) s has =
        on_path (path_or path (found_kernel_driver trim logs os s)) has
      where
        on_path :
            (found : Option Bytes)
            → found ≢ none
            → Serving (run_kernel_driver trim logs os l found s)
        on_path none ne = absurd (ne refl)
        on_path (some p) ne = run-Serving Backend.kernel l _ (new_kernel_driver-Succeeds p s)
    run_device-Serving l (uio_driver path timeout) s has =
        on_path (path_or path (found_uio trim logs os s)) has
      where
        on_path :
            (found : Option Bytes)
            → found ≢ none
            → Serving (run_uio_driver trim logs os l found timeout s)
        on_path none ne = absurd (ne refl)
        on_path (some p) ne =
            run-Serving Backend.uio l _ (new_with_path-Succeeds p (pos 0) timeout s)
    run_device-Serving l (dev_mem_driver (some path) address timeout) s has =
        run-Serving Backend.dev_mem l _ (new_with_path-Succeeds path (as_i64 address) timeout s)
    run_device-Serving l (dev_mem_driver none address timeout) s has =
        run-Serving Backend.dev_mem l _
          (new_with_path-Succeeds (codes "/dev/mem") (as_i64 address) timeout s)

    with_listener-Serving :
        (device : DeviceImpl) (r : Outcome IoError ℕ × S)
        → Succeeds Any r
        → HasPath device r.1
        → Serving (with_listener trim logs os device r)
    unfolding with_listener
    with_listener-Serving device (ok l, s) h has = run_device-Serving l device s has
    with_listener-Serving device (err e, s) h has = absurd h
    with_listener-Serving device (panic, s) h has = absurd h

  -- `main` comes to `listen_on` where the device has a path.
  main-Serving :
      Grants
      → (args : Args) (s : S) (device : DeviceImpl) → device_impl trim logs os args s ≡ some device
      → HasPath device (os.bind (addr_of trim logs os args) s).1
      → Serving (main trim logs os args s)
  unfolding main with_device
  main-Serving grants args s device e has = rw e (
      with_listener-Serving grants device (os.bind (addr_of trim logs os args) s)
        (grants.binds (addr_of trim logs os args) s) has)

  module _ (held : S → List Resource) where
    -- `main` serves with the backend of this device, and has open what that one needs and the listener;
    -- closing and dropping them leaves what was open before.
    abbrev pub Served : SocketAddr → DeviceImpl → S → List Resource → Exit × S → Type 0
    Served addr device later before (serves backend l, s) =
        (resource : Resource) × Opened trim logs os held later device backend resource
        × (held s ≡ resource ∷ listener l addr ∷ before)
        × (held (drop_backend trim logs os backend (os.close_listener l s)) ≡ before)
    Served addr device later before (printed line, s) = ⊥
    Served addr device later before (failed e, s) = ⊥
    Served addr device later before (panicked, s) = ⊥

    Settled-Served :
        (addr : SocketAddr) (device : DeviceImpl) (later : S) (before : List Resource)
        (r : Exit × S)
        → Settled trim logs os held addr (some device) later before r
        → Serving r
        → Served addr device later before r
    Settled-Served addr device later before (serves backend l, s)
          (named, resource, e, opened, h, drops) serving =
        let same : device ≡ named = cc e in (resource, rw same opened, h, drops)
    Settled-Served addr device later before (printed line, s) settled serving = serving
    Settled-Served addr device later before (failed x, s) settled serving = serving
    Settled-Served addr device later before (panicked, s) settled serving = serving

    -- Let the system's calls work as documented and the system refuse none of them, and let the
    -- string of the driver's properties be a text that ends with a NUL. Let `device` be the device
    -- of the arguments, or the one that is found, and let it come with a path, or one be found
    -- behind the binding, or it be a memory device. Then `main` of the debug bridge server gets to
    -- serve clients, with the backend of that device: on the kernel driver's file at that path, or
    -- on a mapping of 65536 bytes of the UIO device at offset 0, or of the memory device, `/dev/mem`
    -- if none is named, at the address as a signed number, with the device's timeout. This and the
    -- listener of the address of the arguments are all that it has opened and not closed; and
    -- closing the listener and dropping the backend release both.
    pub main-Served :
        Grants
        → Documented os held
        → (args : Args) (s : S) (device : DeviceImpl)
        → device_impl trim logs os args s ≡ some device
        → HasPath device (os.bind (addr_of trim logs os args) s).1
        → Served
            (addr_of trim logs os args)
            device
            (os.bind (addr_of trim logs os args) s).1
            (held s)
            (main trim logs os args s)
    main-Served grants doc args s device e has =
        Settled-Served (addr_of trim logs os args) device (os.bind (addr_of trim logs os args) s).1
          (held s) (main trim logs os args s)
          (rw e at (main-Settled trim logs os held doc args s).1)
          (main-Serving grants args s device e has)
