-- ===== src/Examples.antt =====
-- The theorems at concrete inputs.
pub mod Common
pub mod Backends
pub mod Engine
pub mod Kernel
pub mod Rdma
pub mod System
pub mod Remote
pub mod Threads
pub mod Client
