-- ===== src/Proc.antt =====
-- Processes: kernel/src/kernel/proc.
pub mod Task
pub mod Scheduler
pub mod Env
pub mod Argv
pub mod Machine
pub mod Deliver
pub mod Tick
pub mod Spawn
pub mod Reach
pub mod Tty
