-- ===== src/Sys/Dispatch/Checked.antt =====
-- kernel/src/kernel/sys/syscall_core.rs: which addresses of the caller the dispatcher checks before
-- it hands them on. Calls of the runtime that take numbers only, among them the raw addresses of
-- fstat, uname, clock_gettime and sigprocmask, are left to the runtime, and `strnlen_user` reads
-- before any check.
mod Core
mod Objects
mod Compat
mod Stubs
use oxide_os.Sys.Number.{Syscall}
use oxide_os.Sys.Number.Table.{from}
use oxide_os.Sys.Guard.{Memory}
use oxide_os.Sys.Call.{Action, SyscallRequest}
use oxide_os.Sys.Call.Checked.{Checked, CheckedAction}
use oxide_os.Sys.Dispatch.{trace_of, dispatch}
use oxide_os.Sys.Dispatch.Checked.Core.{dispatch_core-Checked}
use oxide_os.Prelude.{ℕ}

trace_of-CheckedAction : (number : ℕ) (s : Syscall) → CheckedAction (trace_of number s)
unfolding trace_of CheckedAction
trace_of-CheckedAction number Syscall.invalid = tt
trace_of-CheckedAction number _ = tt

-- For every request and every content of the caller's memory, whatever the kernel answers: each
-- slice that the dispatcher hands to the kernel is empty or lies in user memory, and so do the
-- places for the two descriptors of a pipe, for the status of a file by its path (stat and lstat)
-- and for a received message, and what the dispatcher itself writes or puts on the console. The
-- numbers that other calls pass, fstat's address among them, are not constrained.
pub dispatch-Checked : (m : Memory) (q : SyscallRequest) → Checked (dispatch m q)
unfolding dispatch Checked
dispatch-Checked m q =
    (trace_of-CheckedAction q.number (from q.number), dispatch_core-Checked m q (from q.number))
