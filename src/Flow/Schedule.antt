-- ===== src/Flow/Schedule.antt =====
-- The loop `schedule` of flow/scheduler.go: what it decides for the flow functions that have
-- instances, and does to their instances, clones and queues.
pub mod State
pub mod Removing
pub mod Adding
pub mod Parts
pub mod Clones
pub mod Serving
pub mod Sizes
pub mod Indexes
pub mod Stops
pub mod Merges
pub mod Rings
pub mod Starts
pub mod Grows
pub mod Round
pub mod Splits
pub mod Kept
pub mod Safe
pub mod Weights
