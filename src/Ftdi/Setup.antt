-- ===== src/Ftdi/Setup.antt =====
-- The set-up of an adapter in xvc-server-usb/src/ftdi_device.rs: `claim_interface`, the control
-- transfers, and `ftdi_init`.
pub mod Order
use xvc_rs.Prelude.{
  ℕ, ◌+◌, Bool, true, false, if◌then◌else◌, Option, some, none, List, [], ◌∷◌, Bytes, Outcome, ok,
  err, panic, then_do, length,
}
use xvc_rs.Ftdi.Usb
use xvc_rs.Ftdi.Usb.{Pipes, ended}

-- What the code calls on a `rusb::DeviceHandle` to set it up. `write_control` is given the request's
-- type, the request, its value and its index.
pub record Control (H E : Type 0) : Type 0 where
  pub set_auto_detach_kernel_driver : H → Outcome E (Unit {0}) × H
  pub claim : ℕ → H → Outcome E (Unit {0}) × H
  pub write_control : ℕ → ℕ → ℕ → ℕ → H → Outcome E ℕ × H
  pub is_not_supported : E → Bool

abbrev pub breq_reset : ℕ
breq_reset = 0x0

abbrev pub breq_set_latency : ℕ
breq_set_latency = 0x09

abbrev pub breq_set_bitmode : ℕ
breq_set_bitmode = 0x0B

abbrev pub wval_reset_reset : ℕ
wval_reset_reset = 0x0

-- `0x0200 | (FTDI_PIN_TCK | FTDI_PIN_TDI | FTDI_PIN_TMS) as u16`
abbrev pub wval_set_bitmode_mpsse : ℕ
wval_set_bitmode_mpsse = 0x020B

abbrev pub wval_reset_purge_tx : ℕ
wval_reset_purge_tx = 0x02

abbrev pub wval_reset_purge_rx : ℕ
wval_reset_purge_rx = 0x01

module _ {H E : Type 0} (control : Control H E) (iface : ℕ) where
  open control use {claim, is_not_supported, set_auto_detach_kernel_driver}

  -- The match on the result of `set_auto_detach_kernel_driver`.
  unfoldable pub detached : Outcome E (Unit {0}) × H → Outcome E (Unit {0}) × H
  detached (ok u, h) = (ok u, h)
  detached (err e, h) = if is_not_supported e then (ok tt, h) else (err e, h)
  detached (panic, h) = (panic, h)

  unfoldable pub claim_interface : H → Outcome E (Unit {0}) × H
  unfolding detached
  claim_interface h = then_do (detached (set_auto_detach_kernel_driver h)) λ _ h₁. claim iface h₁

  -- `bmreqtype_out` is `BMREQTYPE_OUT`, which rusb's constants make.
  module _ (bmreqtype_out : ℕ) where
    abbrev pub transfer : ℕ → ℕ → H → Outcome E ℕ × H
    transfer request value h = control.write_control bmreqtype_out request value (iface + 1) h

    abbrev pub reset : H → Outcome E ℕ × H
    reset = transfer breq_reset wval_reset_reset

    abbrev pub set_bitmode_mpsse : H → Outcome E ℕ × H
    set_bitmode_mpsse = transfer breq_set_bitmode wval_set_bitmode_mpsse

    abbrev pub set_latency : ℕ → H → Outcome E ℕ × H
    set_latency latency = transfer breq_set_latency latency

    abbrev pub purge_tx : H → Outcome E ℕ × H
    purge_tx = transfer breq_reset wval_reset_purge_tx

    abbrev pub purge_rx : H → Outcome E ℕ × H
    purge_rx = transfer breq_reset wval_reset_purge_rx

    -- `init_cmd` is `INIT_CMD` or `INIT_CMD_LOOPBACK`, which the macro `mpsse!` makes.
    module _ (handle : Pipes H E) (init_cmd : Bool → Bytes) where
      unfoldable pub send_init : Bool → H → Outcome E (Unit {0}) × H
      send_init loopback h =
          ended (Usb.write handle (length (init_cmd loopback)) (init_cmd loopback) h) h

      unfoldable pub ftdi_init : Bool → H → Outcome E (Unit {0}) × H
      unfolding claim_interface send_init
      ftdi_init loopback h = then_do (claim_interface h) λ _ h₁. then_do (reset h₁) λ _ h₂.
          then_do (set_bitmode_mpsse h₂) λ _ h₃. then_do (set_latency 2 h₃) λ _ h₄.
            then_do (purge_tx h₄) λ _ h₅. then_do (purge_rx h₅) λ _ h₆. send_init loopback h₆
