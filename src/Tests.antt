-- ===== src/Tests.antt =====
-- The theorems applied at concrete packets, rules and states, and runs of the code on them.
pub mod Samples
pub mod Parsing
pub mod Checksums
pub mod Rules
pub mod Buffers
pub mod Scheduling
pub mod Cpus
pub mod Rings
pub mod Graphs
pub mod Made
pub mod Rounds
pub mod Answers
