-- ===== src/Examples.antt =====
-- The theorems at concrete inputs.
pub mod Devices
mod Wire
mod Reader
mod Connection
mod Bridge
mod Adapter
pub mod Mpsse
mod Trickle
mod Plugged
mod Opened
mod Started
