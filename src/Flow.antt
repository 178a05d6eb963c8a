-- ===== src/Flow.antt =====
-- Package `flow`: the scheduler of flow/scheduler.go.
pub mod Queues
pub mod Instances
pub mod Cores
pub mod Graph
pub mod Segment
pub mod Timers
pub mod Schedule
pub mod Predefined
