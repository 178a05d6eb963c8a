-- ===== src/Packet.antt =====
-- The package `packet`: headers, byte order, checksums and access control lists.
pub mod Headers
pub mod ByteOrder
pub mod Checksum
pub mod State
pub mod Parse
pub mod Acl
pub mod Buffer
pub mod Init
pub mod Arp
pub mod Gtp
pub mod Fields
