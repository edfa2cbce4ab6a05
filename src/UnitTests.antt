-- ===== src/UnitTests.antt =====
-- The repository's own unit tests, run on the definitions.
pub mod Expect
mod Reader
mod Shifts
mod Writer
mod Parsers
mod Decoders
mod Adapter
mod Integration
