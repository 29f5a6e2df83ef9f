-- ===== src/Common.antt =====
-- The crate duvm-common (crates/duvm-common/src): page handles and flags, the ring protocol, the
-- two rings, and the statistics.
pub mod Fifo
pub mod Page
pub mod Protocol
pub mod Ring
pub mod Stats
