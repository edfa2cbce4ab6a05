-- ===== src/DebugBridge.antt =====
-- xvc-server-debugbridge: the backends for the AMD debug bridge.
pub mod MemoryMapped
pub mod KernelDriver
pub mod EndToEnd
pub mod Select
pub mod Properties
pub mod Os
pub mod Open
pub mod Program
