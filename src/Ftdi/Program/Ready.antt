-- ===== src/Ftdi/Program/Ready.antt =====
-- What the USB server comes to, and what its device has taken and been sent then.
use xvc_rs.Prelude.{
  ℕ, ◌+◌, ◌≡◌, refl, ◌∙◌, ◌⊎◌, inl, inr, Option, some, none, List, [], ◌∷◌, ◌++◌, Bytes, Outcome,
  ok, err, panic, Has, Safe,
}
use xvc_rs.Errors.{IoError}
use xvc_rs.Server.{SocketAddr, default_config}
use xvc_rs.Ftdi.Usb.Write.{Writes}
use xvc_rs.Ftdi.Setup.Order.{Transfer, request_of, setup, Adds, Prepared, ready, ftdi_init-Prepared}
use xvc_rs.Ftdi.Discovery.{Device, FtdiJtagDevice, list_available_devices}
use xvc_rs.Ftdi.Discovery.Listed.{FoundIn, list_devices-FoundIn}
use xvc_rs.Ftdi.Disambiguation.Taken.{Taken, Taken-Has, disambiguate-Taken}
use xvc_rs.Ftdi.Program.{
  Args, Exit, no_device, usb_failed, bind_failed, panicked, serves, World, init, pipes_of,
  available, interactive, with_listener, initialised, with_device, with_devices, main,
}

-- A device's log of transfers, and the bytes that it was sent.
module _ {H E D : Type 0} (world : World H E D) (args : Args)
    (log : FtdiJtagDevice D → H → List Transfer) (sent : FtdiJtagDevice D → H → Bytes) where
  open world use {devices, control, usb, bmreqtype_out, init_cmd, bind, select}

  -- What the documents of the calls say.
  pub record Documented : Type 0 where
    pub selects :
        (cs : List (Bytes × FtdiJtagDevice D)) (c : Bytes × FtdiJtagDevice D)
        → select cs ≡ some c
        → Has c cs
    pub apart :
        (d : FtdiJtagDevice D) (values : Bytes) (h : H)
        → log d ((usb d).write d.bulk_out.address values d.timeout h).1 ≡ log d h
    pub writes :
        (d : FtdiJtagDevice D) (h : H) (c : ℕ) (values : Bytes)
        → Writes
            (pipes_of world args d)
            (sent d)
            h
            (c ∷ values)
            ((usb d).write d.bulk_out.address (c ∷ values) d.timeout h)
    pub detaches :
        (d : FtdiJtagDevice D) (h : H)
        → Adds
            (control d)
            d.iface
            bmreqtype_out
            (pipes_of world args d)
            init_cmd
            (log d)
            (sent d)
            h
            []
            ((control d).set_auto_detach_kernel_driver h)
    pub claims :
        (d : FtdiJtagDevice D) (h : H)
        → Adds
            (control d)
            d.iface
            bmreqtype_out
            (pipes_of world args d)
            init_cmd
            (log d)
            (sent d)
            h
            []
            ((control d).claim d.iface h)
    pub transfers :
        (d : FtdiJtagDevice D) (request value : ℕ) (h : H)
        → Adds
            (control d)
            d.iface
            bmreqtype_out
            (pipes_of world args d)
            init_cmd
            (log d)
            (sent d)
            h
            (request_of
                (control d)
                d.iface
                bmreqtype_out
                (pipes_of world args d)
                init_cmd
                (log d)
                (sent d)
                request
                value
              ∷ [])
            ((control d).write_control bmreqtype_out request value (d.iface + 1) h)
    pub binds :
        (d : FtdiJtagDevice D) (addr : SocketAddr) (h : H)
        → (log d (bind addr h).1 ≡ log d h) × (sent d (bind addr h).1 ≡ sent d h)
    pub bind_answers : (addr : SocketAddr) (h : H) → Safe (bind addr h).0

  -- The device is the one that is taken of the adapters found, and it is one of those plugged in.
  pub record Chosen (d : FtdiJtagDevice D) : Type 0 where
    pub found : List (FtdiJtagDevice D)
    pub lists : available world args ≡ ok found
    pub takes : Taken found (interactive world args) (some d)
    pub plugged : List (Device E D)
    pub asked : devices ≡ ok plugged
    pub is_adapter : FoundIn args.ftdi_port default_config.read_write_timeout plugged d

  -- The whole set-up, and the whole init command.
  abbrev pub IsReady : FtdiJtagDevice D → H → H → Type 0
  IsReady d h h' =
      (log d h'
        ≡ log d h
          ++ setup (control d) d.iface bmreqtype_out (pipes_of world args d) init_cmd (log d)
              (sent d))
      × (sent d h' ≡ sent d h ++ init_cmd args.loopback)

  abbrev pub Ends : H → Exit E D × H → Type 0
  Ends h (no_device, h') =
      (found : List (FtdiJtagDevice D)) × (available world args ≡ ok found)
      × Taken found (interactive world args) none
      × (h' ≡ h)
  Ends h (usb_failed e, h') =
      ((available world args ≡ err e) × (h' ≡ h))
      ⊎ ((d : FtdiJtagDevice D) × Chosen d
          × Prepared (control d) d.iface bmreqtype_out (pipes_of world args d) init_cmd (log d)
              (sent d) h
              (setup (control d) d.iface bmreqtype_out (pipes_of world args d) init_cmd (log d)
                (sent d))
              (init_cmd args.loopback) (err e, h'))
  Ends h (bind_failed e, h') = (d : FtdiJtagDevice D) × Chosen d × IsReady d h h'
  Ends h (panicked, h') = (available world args ≡ panic) × (h' ≡ h)
  Ends h (serves d l, h') = Chosen d × IsReady d h h'

  listing-FoundIn :
      (r : Outcome E (List (Device E D))) (found : List (FtdiJtagDevice D)) (d : FtdiJtagDevice D)
      → list_available_devices r args.ftdi_port default_config.read_write_timeout ≡ ok found
      → Has d found
      → (plugged : List (Device E D)) × (r ≡ ok plugged)
        × FoundIn args.ftdi_port default_config.read_write_timeout plugged d
  unfolding list_available_devices
  listing-FoundIn (ok plugged) found d e h = (
    plugged,
    refl,
    list_devices-FoundIn args.ftdi_port default_config.read_write_timeout plugged found d e h,
  )
  listing-FoundIn (err x) found d e h = cc
  listing-FoundIn panic found d e h = cc

  chosen :
      (found : List (FtdiJtagDevice D)) (d : FtdiJtagDevice D)
      → available world args ≡ ok found
      → Taken found (interactive world args) (some d)
      → Chosen d
  chosen found d e t =
      let (plugged, asked, is_adapter) = listing-FoundIn devices found d e (Taken-Has t d refl) in
      record {
        found = found;
        lists = e;
        takes = t;
        plugged = plugged;
        asked = asked;
        is_adapter = is_adapter;
      }

  with_listener-Ends :
      (d : FtdiJtagDevice D) (h : H) (r : Outcome IoError ℕ × H)
      → Safe r.0
      → Chosen d
      → IsReady d h r.1
      → Ends h (with_listener world args d r)
  unfolding with_listener
  with_listener-Ends d h (ok l, h') safe c i = (c, i)
  with_listener-Ends d h (err e, h') safe c i = (d, c, i)
  with_listener-Ends d h (panic, h') safe c i = absurd safe

  initialised-Ends :
      Documented
      → (d : FtdiJtagDevice D) (h : H) (r : Outcome E (Unit {0}) × H) → Chosen d
      → Prepared
          (control d)
          d.iface
          bmreqtype_out
          (pipes_of world args d)
          init_cmd
          (log d)
          (sent d)
          h
          (setup
            (control d)
            d.iface
            bmreqtype_out
            (pipes_of world args d)
            init_cmd
            (log d)
            (sent d))
          (init_cmd args.loopback)
          r
      → Ends h (initialised world args d r)
  unfolding initialised
  initialised-Ends doc d h _ c (ready h' l s) =
      let addr : SocketAddr = record { ip = args.ip; port = args.port } in
      with_listener-Ends d h (bind addr h') (doc.bind_answers addr h') c
        ((doc.binds d addr h').0 ∙ l, (doc.binds d addr h').1 ∙ s)
  initialised-Ends doc d h (err e, h') c p = inr (d, c, p)

  with_device-Ends :
      Documented
      → (found : List (FtdiJtagDevice D)) (r : Option (FtdiJtagDevice D)) (h : H)
      → available world args ≡ ok found
      → Taken found (interactive world args) r
      → Ends h (with_device world args r h)
  unfolding with_device
  with_device-Ends doc found none h e t = (found, e, t, refl)
  with_device-Ends doc found (some d) h e t =
      initialised-Ends doc d h (init world args d h) (chosen found d e t) (
        ftdi_init-Prepared (control d) d.iface bmreqtype_out (pipes_of world args d) init_cmd
          (log d) (sent d) (doc.apart d) (doc.writes d) (doc.detaches d) (doc.claims d)
          (doc.transfers d) args.loopback h)

  with_devices-Ends :
      Documented
      → (r : Outcome E (List (FtdiJtagDevice D))) (h : H) → available world args ≡ r
      → Ends h (with_devices world args r h)
  unfolding with_devices
  with_devices-Ends doc (ok found) h e =
      with_device-Ends doc found _ h e
        (disambiguate-Taken world.trim_end select doc.selects found (interactive world args))
  with_devices-Ends doc (err x) h e = inl (e, refl)
  with_devices-Ends doc panic h e = (e, refl)

  -- Let the prompt answer with one of its choices, let rusb work as documented on each device
  -- (detaching the kernel driver and claiming the interface take no transfer and send nothing, a
  -- control transfer is taken or fails, a write to its bulk OUT endpoint takes at least one of its
  -- bytes, in order, or fails and takes none, and is no transfer), and let binding a listener not
  -- panic and touch no device. Then `main` of the USB server serves only with a device that has
  -- taken the whole set-up, in order, and been sent the whole init command of the mode that the
  -- arguments ask for; it is an adapter that `check_device` finds in a device plugged in, and the
  -- only one found, or, where the server may ask and several are found, the one that was picked. An
  -- error of the binding comes behind the same set-up, an error of rusb comes from the list of
  -- devices, with no device touched, or from the set-up of such a device, which has then taken a
  -- part of it from its front. If `main` ends without an error, no adapter was found or of several
  -- none was picked, and no device was touched; it panics only where the list of devices does.
  pub main-Ends : Documented → (h : H) → Ends h (main world args h)
  unfolding main
  main-Ends doc h = with_devices-Ends doc (available world args) h refl
