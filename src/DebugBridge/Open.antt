-- ===== src/DebugBridge/Open.antt =====
-- Opening and dropping the debug bridge's backends: `new` and `Drop` in
-- xvc-server-debugbridge/src/backends, uio.rs, devmem.rs and kernel_driver.rs.
pub mod Held
use xvc_rs.Prelude.{
  ℕ, Bool, true, false, ◌==◌, if◌then◌else◌, Bytes, codes, Outcome, ok, err, panic, then_do,
}
use xvc_rs.Errors.{IoError}
use xvc_rs.DebugBridge.Properties.{XvcProperties, compat_string}
use xvc_rs.DebugBridge.Os.{Os, ℤ, pos}

-- `MemoryMappedBackend`: the pointer, and the timeout in microseconds.
pub record Mapped : Type 0 where
  pub mem : ℕ
  pub poll_timeout : ℕ

abbrev pub map_size : ℕ
map_size = 0x10000

module _ {S : Type 0} (os : Os S) where
  -- `mmap(…, file, offset)?`, which drops the file that it is given.
  unfoldable pub mmap_file : ℕ → ℤ → S → Outcome IoError ℕ × S
  mmap_file file offset s =
      let (result, s') = os.mmap map_size file offset s in (result, os.close file s')

  -- `UioDriverBackend::new`
  unfoldable pub new_uio : Bytes → ℕ → S → Outcome IoError Mapped × S
  unfolding mmap_file
  new_uio path poll_timeout s = then_do (os.open_file path s) λ file s₁.
      then_do (mmap_file file (pos 0) s₁)
        λ ptr s₂. (ok (record { mem = ptr; poll_timeout = poll_timeout }), s₂)

  -- `DevMemBackend::new_with_path`
  unfoldable pub new_with_path : Bytes → ℤ → ℕ → S → Outcome IoError Mapped × S
  unfolding mmap_file
  new_with_path path address poll_timeout s = then_do (os.open_file path s) λ file s₁.
      then_do (mmap_file file address s₁)
        λ ptr s₂. (ok (record { mem = ptr; poll_timeout = poll_timeout }), s₂)

  -- `DevMemBackend::new`
  unfoldable pub new_dev_mem : ℤ → ℕ → S → Outcome IoError Mapped × S
  unfolding new_with_path
  new_dev_mem = new_with_path (codes "/dev/mem")

  -- `Drop` of `DevMemBackend`
  unfoldable pub drop_mapped : Mapped → S → S
  drop_mapped backend s = if backend.mem == 0 then s else os.munmap backend.mem map_size s

  -- `Drop` of `UioDriverBackend`
  abbrev pub drop_uio : Mapped → S → S
  drop_uio = drop_mapped

  -- The log message of `KernelDriverBackend::new`, which reads the string if it is written.
  unfoldable pub log_properties : Bool → XvcProperties → Outcome IoError (Unit {0})
  log_properties false properties = ok tt
  log_properties true properties = elim (compat_string properties) [
    | ok text ↦ ok tt
    | err e ↦ err e
    | panic ↦ panic
  ]

  -- An error or a panic drops the file.
  unfoldable pub or_close : ℕ → Outcome IoError (Unit {0}) × S → Outcome IoError ℕ × S
  or_close file (ok _, s) = (ok file, s)
  or_close file (err e, s) = (err e, os.close file s)
  or_close file (panic, s) = (panic, os.close file s)

  -- `KernelDriverBackend::new`; the backend is its file. `logs` says whether messages of the level
  -- `info` are written.
  unfoldable pub new_kernel_driver : Bool → Bytes → S → Outcome IoError ℕ × S
  unfolding or_close log_properties
  new_kernel_driver logs path s = then_do (os.open_file path s) λ file s₁. or_close file (
      then_do (os.xvc_read_properties file s₁)
        λ properties s₂. (log_properties logs properties, s₂))
