-- ===== src/DebugBridge/KernelDriver.antt =====
-- `KernelDriverBackend` of xvc-server-debugbridge/src/backends/kernel_driver.rs.
pub mod Backend
use xvc_rs.Prelude.{ℕ, not, ◌==◌, ◌≡◌, if◌then◌else◌, Bytes, codes, Outcome, err, length, div_ceil}
use xvc_rs.Errors.{IoError}
use xvc_rs.DebugBridge.MemoryMapped.{io_other}

-- `XvcIoc` with the buffers that its pointers stand for; its `length` is `num_bits` here.
pub record XvcIoc : Type 0 where
  pub opcode : ℕ
  pub num_bits : ℕ
  pub tms_buf : Bytes
  pub tdi_buf : Bytes
  pub tdo_buf : Bytes

-- The kernel's driver: `xvc_do_ioc` writes the TDO buffer behind the pointer, whose length is fixed.
pub record Driver (H : Type 0) : Type 0 where
  pub xvc_do_ioc : XvcIoc → H → Outcome IoError (Unit {0}) × Bytes × H
  pub length-xvc_do_ioc :
      (ioc : XvcIoc) (h : H) → length {A = ℕ} (xvc_do_ioc ioc h).1 ≡ length ioc.tdo_buf

module _ {H : Type 0} (driver : Driver H) where
  open driver use {xvc_do_ioc}

  unfoldable pub shift_data : ℕ → Bytes → Bytes → Bytes → H → Outcome IoError (Unit {0}) × Bytes × H
  shift_data num_bits tms tdi tdo h =
      let num_bytes = div_ceil num_bits 8 in
      if not (length tms == num_bytes)
      then (err (io_other (codes "TMS has incorrect size")), tdo, h)
      else if not (length tdi == num_bytes)
      then (err (io_other (codes "TDI has incorrect size")), tdo, h)
      else if not (length tdo == num_bytes)
      then (err (io_other (codes "TDO has incorrect size")), tdo, h)
      else xvc_do_ioc
          (record { opcode = 1; num_bits = num_bits; tms_buf = tms; tdi_buf = tdi; tdo_buf = tdo })
          h
