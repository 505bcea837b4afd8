-- ===== src/Ipc.antt =====
-- The channels between programs and the kernel: kernel/src/kernel/ipc.
pub mod Pipe
pub mod Stdin
pub mod MsgQueue
pub mod Shm
