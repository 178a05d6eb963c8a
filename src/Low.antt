-- ===== src/Low.antt =====
-- The package `low`: the parts that are Go code.
pub mod Mbuf
pub mod Ring
