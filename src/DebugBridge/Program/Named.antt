-- ===== src/DebugBridge/Program/Named.antt =====
-- The device that the debug bridge server takes: the one named, or else one that is found.
use xvc_rs.Prelude.{◌≡◌, refl, Bool, true, false, Option, some, none, List, Bytes, codes}
use xvc_rs.DebugBridge.Select.{
  Entry, DeviceImpl, kernel_driver, uio_driver, kernel_driver_path, uio_driver_path, choose, Search,
  search-Search,
}
use xvc_rs.DebugBridge.Os.{Os}
use xvc_rs.DebugBridge.Program.{Args, device_impl}

module _ (trim : Bytes → Bytes) (logs : Bool) {S : Type 0} (os : Os S) (args : Args) (s : S) where
  -- The search of the UIO class comes to this.
  pub data Finds : Option Bytes → Type 0 where
    unlisted : os.uio_class s ≡ none → Finds none
    entries_found :
        (entries : List Entry) (found : Option Bytes)
        → os.uio_class s ≡ some entries
        → Search trim entries found
        → Finds found

  -- The device of the arguments; or else the kernel driver, if its file exists; or else the UIO driver
  -- of a debug bridge that the search finds, with the default timeout; or else none.
  pub data Named : Option DeviceImpl → Type 0 where
    given : (device : DeviceImpl) → args.device ≡ some device → Named (some device)
    kernel_found :
        args.device ≡ none
        → os.exists (codes "/dev/xilinx_xvc_driver") s ≡ true
        → Named (some (kernel_driver (some (codes "/dev/xilinx_xvc_driver"))))
    uio_found :
        (path : Bytes)
        → args.device ≡ none
        → os.exists (codes "/dev/xilinx_xvc_driver") s ≡ false
        → Finds (some path)
        → Named (some (uio_driver (some path) 1000))
    none_found :
        args.device ≡ none
        → os.exists (codes "/dev/xilinx_xvc_driver") s ≡ false
        → Finds none
        → Named none

  uio_driver_path-Finds :
      (entries : Option (List Entry))
      → os.uio_class s ≡ entries
      → Finds (uio_driver_path trim entries)
  unfolding uio_driver_path
  uio_driver_path-Finds none e = unlisted e
  uio_driver_path-Finds (some entries) e = entries_found entries _ e (search-Search trim entries)

  choose-Named :
      (device : Option DeviceImpl) (exists : Bool) (found : Option Bytes)
      → args.device ≡ device
      → os.exists (codes "/dev/xilinx_xvc_driver") s ≡ exists
      → Finds found
      → Named (choose device (kernel_driver_path exists) found)
  unfolding choose
  choose-Named (some device) exists found e x f = given device e
  choose-Named none true found e x f = kernel_found e x
  choose-Named none false (some path) e x f = uio_found path e x f
  choose-Named none false none e x f = none_found e x f

  pub device_impl-Named : Named (device_impl trim logs os args s)
  device_impl-Named =
      choose-Named args.device _ _ refl refl (uio_driver_path-Finds (os.uio_class s) refl)
