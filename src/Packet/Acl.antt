-- ===== src/Packet/Acl.antt =====
-- packet/acl.go: access lists, read from files and tried on packets.
pub mod Rules
pub mod Fields
pub mod Layer2
pub mod Layer3
pub mod Match
