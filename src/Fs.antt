-- ===== src/Fs.antt =====
-- The file systems: kernel/src/kernel/fs.
pub mod Errors
pub mod Path
pub mod RamFs
pub mod FdTable
pub mod Mbr
pub mod Ata
pub mod Fat
