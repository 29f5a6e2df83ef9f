-- ===== src/Backends.antt =====
-- The storage backends: the trait that they implement, its contract, and the implementations.
pub mod Trait
pub mod Tcp
pub mod Rdma
pub mod RdmaServer
pub mod Slots
pub mod Contract
pub mod RoundTrip
pub mod Memory
pub mod Compress
