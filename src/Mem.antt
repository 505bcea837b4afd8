-- ===== src/Mem.antt =====
-- Physical memory: kernel/src/kernel/mem.
pub mod Frames
pub mod Flags
pub mod Cow
