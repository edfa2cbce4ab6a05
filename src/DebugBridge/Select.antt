-- ===== src/DebugBridge/Select.antt =====
-- xvc-server-debugbridge/src/main.rs: the search for a debug bridge, and the choice of the backend.
use xvc_rs.Prelude.{
  ℕ, ◌≡◌, Bool, true, false, ◌&&◌, ◌==◌, Option, none, some, List, [], ◌∷◌, ◌++◌, if◌then◌else◌,
  Bytes, codes, All, starts_with, length, Bool-cases, inl, inr,
}

-- An entry of `/sys/class/uio`: one that cannot be read, or a file name with what its file `name`
-- holds, if that can be read.
pub data Entry : Type 0 where
  unreadable : Entry
  entry : Bytes → Option Bytes → Entry

-- `a == b`
abbrev pub same : Bytes → Bytes → Bool
same a b = starts_with a b && length a == length b

abbrev pub debug_bridge : Bytes
debug_bridge = codes "debug_bridge"

-- `str::trim`
module _ (trim : Bytes → Bytes) where
  -- The loop of `uio_driver_path`.
  unfoldable pub search : List Entry → Option Bytes
  search [] = none
  search (unreadable ∷ entries) = none
  search (entry file none ∷ entries) = search entries
  search (entry file (some name) ∷ entries) =
      let rest = search entries in
      if same (trim name) debug_bridge then some (codes "/dev/" ++ file) else rest

  -- `uio_class_path.read_dir().ok()?`
  unfoldable pub uio_driver_path : Option (List Entry) → Option Bytes
  uio_driver_path none = none
  uio_driver_path (some entries) = search entries

  -- An entry that is no debug bridge, as far as one can tell.
  abbrev pub IsOther : Entry → Type 0
  IsOther unreadable = ⊥
  IsOther (entry file none) = Unit {0}
  IsOther (entry file (some name)) = same (trim name) debug_bridge ≡ false

  -- What a search comes to, by the entries in their order.
  pub data Search : List Entry → Option Bytes → Type 0 where
    finds :
        (before : List Entry) (file name : Bytes) (after : List Entry)
        → All IsOther before
        → same (trim name) debug_bridge ≡ true
        → Search (before ++ entry file (some name) ∷ after) (some (codes "/dev/" ++ file))
    lacks : (entries : List Entry) → All IsOther entries → Search entries none
    stops :
        (before after : List Entry)
        → All IsOther before
        → Search (before ++ unreadable ∷ after) none

  Search-next :
      (e : Entry) (entries : List Entry) (r : Option Bytes)
      → IsOther e
      → Search entries r
      → Search (e ∷ entries) r
  Search-next e _ _ o (finds before file name after all s) =
      finds (e ∷ before) file name after (o, all) s
  Search-next e _ _ o (lacks entries all) = lacks (e ∷ entries) (o, all)
  Search-next e _ _ o (stops before after all) = stops (e ∷ before) after (o, all)

  -- On every list of UIO entries, the search for a debug bridge gives the device path of the first
  -- entry whose trimmed name is that of the bridge, with only readable entries without that name, or
  -- without a name that can be read, in front of it; or nothing, where all entries are of the latter
  -- kinds, or where an entry that cannot be read comes behind only such ones.
  pub search-Search : (entries : List Entry) → Search entries (search entries)
  unfolding search
  search-Search [] = lacks [] tt
  search-Search (unreadable ∷ entries) = stops [] entries tt
  search-Search (entry file none ∷ entries) =
      Search-next (entry file none) entries _ tt (search-Search entries)
  search-Search (entry file (some name) ∷ entries) =
      elim (Bool-cases (same (trim name) debug_bridge)) [
        | inl e ↦ rw e (finds [] file name entries tt e)
        | inr e ↦ rw e (Search-next (entry file (some name)) entries _ e (search-Search entries))
      ]

-- `DeviceImpl`, with what each variant holds: a path, an address, a timeout in microseconds.
pub data DeviceImpl : Type 0 where
  kernel_driver : Option Bytes → DeviceImpl
  uio_driver : Option Bytes → ℕ → DeviceImpl
  dev_mem_driver : Option Bytes → ℕ → ℕ → DeviceImpl

abbrev pub default_timeout_us : ℕ
default_timeout_us = 1000

-- `kernel_driver_path`, by whether the file exists.
abbrev pub kernel_driver_path : Bool → Option Bytes
kernel_driver_path exists = if exists then some (codes "/dev/xilinx_xvc_driver") else none

-- `device_impl`: the one that the arguments name, or else one that is found.
unfoldable pub choose : Option DeviceImpl → Option Bytes → Option Bytes → Option DeviceImpl
choose (some device) kernel uio = some device
choose none (some path) uio = some (kernel_driver (some path))
choose none none (some path) = some (uio_driver (some path) default_timeout_us)
choose none none none = none
