-- ===== src/Adv.antt =====
-- adv.go: advertising packets, built and parsed.
pub mod FieldType
pub mod Packet
pub mod Parse
