-- ===== src/Common.antt =====
-- common/common.go: constants, error values and the list of cores.
pub mod Constants
pub mod Errors
pub mod Slices
pub mod CpuList
