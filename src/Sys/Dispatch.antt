-- ===== src/Sys/Dispatch.antt =====
-- kernel/src/kernel/sys/syscall_core.rs: the dispatcher. Its `match` is cut in four, in the
-- source's order.
pub mod Core
pub mod Objects
pub mod Compat
pub mod Stubs
pub mod Checked
mod Tests
use oxide_os.Prelude.{ℕ}
use oxide_os.Sys.Number.{Syscall}
use oxide_os.Sys.Number.Table.{from}
use oxide_os.Sys.Guard.{Memory}
use oxide_os.Sys.Call.{Action, Prog, SyscallRequest, act}
use oxide_os.Sys.Dispatch.Core.{dispatch_core}

-- Whether a number stands for no call.
unfoldable pub trace_of : ℕ → Syscall → Action
trace_of number Syscall.invalid = Action.trace_unknown number
trace_of number s = Action.trace s

unfoldable pub dispatch : Memory → SyscallRequest → Prog
unfolding trace_of from
dispatch m q = act (trace_of q.number (from q.number)) (dispatch_core m q (from q.number))
