-- ===== src/Daemon.antt =====
-- The crate duvm-daemon (crates/duvm-daemon/src): configuration, policy, engine and kernel interface.
pub mod Config
pub mod Policy
pub mod Engine
pub mod Startup
pub mod KmodRing
pub mod Control
pub mod Uffd
pub mod Program
