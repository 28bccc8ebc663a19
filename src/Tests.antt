-- ===== src/Tests.antt =====
-- Each theorem on the code of Core applied to concrete input.
pub mod Data
pub mod Packets
pub mod Bus
pub mod Queues
pub mod Services
pub mod Session
pub mod Receiving
pub mod Pooling
pub mod Sockets
pub mod Requests
