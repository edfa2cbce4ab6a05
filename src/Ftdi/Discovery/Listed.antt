-- ===== src/Ftdi/Discovery/Listed.antt =====
-- The devices that `list_available_devices` gives.
use xvc_rs.Prelude.{
  ℕ, ◌≡◌, refl, inl, inr, Option, some, none, List, [], ◌∷◌, Outcome, ok, err, panic, Has,
}
use xvc_rs.Ftdi.Discovery.{Device, FtdiJtagDevice, check_device, listed, list_devices}

module _ {E D : Type 0} (ftdi_port timeout : ℕ) where
  -- An adapter that `check_device` finds in one of the devices.
  abbrev pub FoundIn : List (Device E D) → FtdiJtagDevice D → Type 0
  FoundIn devices adapter =
      (device : Device E D) × Has device devices
      × (check_device device ftdi_port timeout ≡ ok (some adapter))

  FoundIn-next :
      (device : Device E D) (devices : List (Device E D)) (adapter : FtdiJtagDevice D)
      → FoundIn devices adapter
      → FoundIn (device ∷ devices) adapter
  FoundIn-next device devices adapter (d, i, e) = (d, inr i, e)

  listed-FoundIn :
      (device : Device E D) (devices : List (Device E D))
      (r : Outcome E (Option (FtdiJtagDevice D))) (rest : Outcome E (List (FtdiJtagDevice D)))
      (found : List (FtdiJtagDevice D)) (adapter : FtdiJtagDevice D)
      → r ≡ check_device device ftdi_port timeout
      → ((others : List (FtdiJtagDevice D))
          → rest ≡ ok others
          → Has adapter others
          → FoundIn devices adapter)
      → listed r rest ≡ ok found
      → Has adapter found
      → FoundIn (device ∷ devices) adapter
  listed-FoundIn device devices (ok none) rest found adapter e more l h =
      FoundIn-next device devices adapter (more found l h)
  listed-FoundIn device devices (err x) rest found adapter e more l h =
      FoundIn-next device devices adapter (more found l h)
  listed-FoundIn device devices panic rest found adapter e more l h = cc
  listed-FoundIn device devices (ok (some a)) (ok others) [] adapter e more l h = absurd h
  listed-FoundIn device devices (ok (some a)) (ok others) (b ∷ found) adapter e more l (inl same) =
      (device, inl refl, cc)
  listed-FoundIn device devices (ok (some a)) (ok others) (b ∷ found) adapter e more l (inr i) =
      FoundIn-next device devices adapter (more found (cc) i)
  listed-FoundIn device devices (ok (some a)) (err x) found adapter e more l h = cc
  listed-FoundIn device devices (ok (some a)) panic found adapter e more l h = cc

  pub list_devices-FoundIn :
      (devices : List (Device E D)) (found : List (FtdiJtagDevice D)) (adapter : FtdiJtagDevice D)
      → list_devices devices ftdi_port timeout ≡ ok found
      → Has adapter found
      → FoundIn devices adapter
  unfolding list_devices
  list_devices-FoundIn [] [] adapter e h = absurd h
  list_devices-FoundIn [] (a ∷ found) adapter e h = cc
  list_devices-FoundIn (device ∷ devices) found adapter e h =
      listed-FoundIn device devices (check_device device ftdi_port timeout) _ found adapter refl
        (λ others. list_devices-FoundIn devices others adapter) e h
