-- ===== src/Hci.antt =====
-- The package linux: the host controller interface.
pub mod L2cap
pub mod Bytes
pub mod Command
pub mod Event
pub mod Sent
pub mod State
