-- ===== src/Lib.antt =====
-- Verification of OxideOS, a hobby operating system for x86-64: the parts of its kernel that keep
-- tables in memory and act on them by plain code, from pipes to the scheduler.
--
-- The parts and how they interact. A program runs as a task of the scheduler, a table of eight. It
-- reaches the kernel through its table of 32 descriptors, behind each of which stands a pipe, an
-- inode of the RAM file system, a file of a disk file system or a device. Programs exchange bytes by
-- pipes, messages by queues, and memory by shared segments; keys come from an interrupt through a
-- ring. A fork copies the descriptor table and counts the pipe ends once more; the timer wakes tasks
-- that sleep, wait for a message or for a child, delivers signals and picks the next task.
--
-- Which file models which part, with paths from the repository's root:
--   Prelude            lists with native indices, searches, counted loops, signed results, and
--                      circular buffers (Prelude/Circular), which three of the parts share
--                      Prelude/Bits has the digits of a number and what the bit operations do
--   Ipc/Pipe           kernel/src/kernel/ipc/pipe.rs: the record Pipe has the fields of the struct;
--                      alloc, addref, write, read and close are the functions of the same names,
--                      with the static table PIPES as an argument and a result
--   Ipc/Stdin          kernel/src/kernel/ipc/stdin.rs: push, pop, available on the three statics
--   Ipc/MsgQueue       kernel/src/kernel/ipc/ipc.rs: msgq_create, msgsnd, msgrcv, msgq_destroy,
--                      msgq_len on the table QUEUES
--   Ipc/Shm            kernel/src/kernel/ipc/shm.rs: shmget, shmat, shmdt on SEGTAB and on the
--                      attachments of one task; the page allocator is the parameter Paging
--   Fs/Errors, Fs/Path kernel/src/kernel/fs/mod.rs, and the functions on text that ramfs.rs calls
--   Fs/RamFs           kernel/src/kernel/fs/ramfs.rs, RamFs: the vector of inodes is a list, each
--                      method is the function of its name
--   Fs/FdTable         kernel/src/kernel/fs/ramfs.rs, FdTable: open is open_file here; the pipes,
--                      the ring and the file system that a call acts on are the record World; the
--                      disk file systems and the console are the parameter Devices
--   Proc/Task          kernel/src/kernel/proc/scheduler.rs and user_mode.rs: Task, TaskContext
--   Proc/Scheduler     scheduler.rs: send_signal, kill and the loops of tick on the table of tasks
--   Proc/Deliver       scheduler.rs: deliver_pending_signals
--   Proc/Tick          scheduler.rs: tick, preempt, sleep_task, wait_for_pid, wait_for_msg
--   Proc/Spawn         scheduler.rs: spawn, fork_task, the queries and the output of tasks
--   Proc/Argv          scheduler.rs: write_argv_to_stack
--   Proc/Env           kernel/src/kernel/proc/env.rs: getenv, setenv, write_env_strings
--   Proc/Reach         sequences of starts, forks, signals and runs of the timer's loops
--   Proc/Machine       the state that tick acts on, and the page tables, the ELF loader and the
--                      entry into user mode as a parameter
--   Sys/Number         kernel/src/kernel/sys/syscall_core.rs: the enum Syscall, its numbers, and
--                      From<u64> as a table
--   Sys/Guard          syscall_core.rs: validate_user_range and strnlen_user
--   Sys/Call           syscall_core.rs: the trait SyscallRuntime. A handler is a tree of calls of its
--                      methods (Prog), which Sys/Call/Run runs on an implementation; the bodies that
--                      the trait gives are in Sys/Call/Default
--   Sys/Files, Sys/Services  syscall_core.rs: the functions sys_*
--   Sys/Dispatch       syscall_core.rs: dispatch, its match cut in four files in the source's order;
--                      calls that pass numbers only, raw addresses among them, are left to the
--                      runtime
--   Sys/Kernel         kernel/src/kernel/sys/syscall.rs: the kernel's runtime for files, pipes,
--                      queues and the console, on the models above
--   Sys/Signals        syscall.rs: sigaction, sigprocmask, sigpending, sigsuspend, sigreturn, alarm;
--                      what a store through a pointer of the caller does to the task is a parameter
--   Mem/Frames         kernel/src/kernel/mem/paging_allocator.rs: PhysicalFrameAllocator
--   Mem/Flags, Mem/Cow paging_allocator.rs: PageTableFlags, PageTableEntry, try_resolve_cow_fault
--   Proc/Tty           kernel/src/kernel/proc/tty.rs: the settings of the terminal and ioctl
--   Keyboard           kernel/src/kernel/drivers/keyboard.rs: from a byte of the keyboard to the ring,
--                      the callbacks and the lights, over the decoder as a parameter
--   Fs/Ata             the disk driver as an interface, with what a write and a read promise
--   Fs/Fat             kernel/src/kernel/fs/fat.rs: the allocation table (Table, Alloc, Chain), the
--                      8.3 names (Names), the open files (File), and a volume behind the
--                      descriptors of a task (Mounted)
--   Fs/Mbr             kernel/src/kernel/fs/mbr.rs, and write_mbr of kernel/src/kernel/installer.rs
--
-- How code is modelled. A static or a `&mut self` is an argument and a component of the result; a
-- raw index into an array is a lookup with a default, used inside the array only; fixed arrays are
-- lists of the array's length, which the invariants state; numbers are naturals, with the wrap of a
-- cast or of a narrow type written out; a negative error code is a ℤ. User memory and physical
-- memory are functions from addresses.
--
-- Bounds and fuel. The loops over tables recurse on the table. The search for the next task goes
-- eight places, the size of the table. The loop over pending signals has 32 rounds: each round
-- clears a bit of a 32-bit mask, and a theorem says that more rounds change nothing. The length of a
-- user string is found in as many rounds as the limit says, the search for a frame in as many as
-- frames are tracked; a read or write of a FAT file moves at least one byte a round, and its number
-- of bytes is the fuel; the release of a chain has a round for each cluster. The scan of an
-- environment string has as many rounds as there are bytes.
--
-- Not modelled: ext2, the directories of FAT and the block devices (input and output through
-- ports), the building of page tables and the kernel heap (raw physical memory and an external
-- crate), interrupts, the network (an external crate and device registers), the desktop (drawing),
-- the parts of the kernel's runtime on memory mappings and windows, and the programs of user space.
-- Locks are not modelled: each call runs to its end, as on the one processor that the kernel uses,
-- and interrupts appear as steps between the calls.
pub mod Prelude
pub mod Ipc
pub mod Fs
pub mod Proc
pub mod Sys
pub mod Keyboard
pub mod Mem
