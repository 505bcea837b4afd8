-- ===== src/Sys.antt =====
-- System calls: kernel/src/kernel/sys.
pub mod Number
pub mod Guard
pub mod Call
pub mod Files
pub mod Services
pub mod Dispatch
pub mod Kernel
pub mod Signals
