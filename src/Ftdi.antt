-- ===== src/Ftdi.antt =====
-- xvc-server-usb: the backend for FTDI adapters.
pub mod Clock
pub mod Bits
pub mod Usb
pub mod Shift
pub mod Backend
pub mod Discovery
pub mod Setup
pub mod Disambiguation
pub mod Program
