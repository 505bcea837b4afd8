-- ===== src/Sys/Dispatch/Tests.antt =====
-- The dispatcher at concrete requests.
use oxide_os.Prelude.{◌≡◌, refl, true, pos, neg}
use oxide_os.Sys.Number.{Syscall}
use oxide_os.Sys.Number.Table.{from, lookup}
use oxide_os.Sys.Guard.{Memory, validate_user_range}
use oxide_os.Sys.Call.{
  Call, Action, SyscallRequest, slice, call, act, finish, return_error, checked,
}
use oxide_os.Sys.Call.Checked.{Checked}
use oxide_os.Sys.Files.{sys_read}
use oxide_os.Sys.Dispatch.{dispatch, trace_of}
use oxide_os.Sys.Dispatch.Core.{dispatch_core}
use oxide_os.Sys.Dispatch.Checked.{dispatch-Checked}

abbrev memory : Memory
memory = record { is_page_mapped_current = λ _. true; read_byte = λ _. 0 }

abbrev request : SyscallRequest
request = record { number = 0; arg1 = 5; arg2 = 0x2000; arg3 = 16; arg4 = 0; arg5 = 0 }

-- A read of 16 bytes from descriptor 5, and one into the kernel.
read_runs :
    dispatch memory request
    ≡ act (Action.trace Syscall.read) (call (Call.fs_read (pos 5) (slice 0x2000 16)) finish)
unfolding dispatch trace_of from lookup dispatch_core sys_read checked validate_user_range
read_runs = refl

read_refused :
    dispatch memory (record request { arg2 = 0xFFFF800000000000 })
    ≡ act (Action.trace Syscall.read) (return_error (neg 1))
unfolding dispatch trace_of from lookup dispatch_core sys_read checked validate_user_range
read_refused = refl

dispatch-Checked_example : Checked (dispatch memory request)
dispatch-Checked_example = dispatch-Checked memory request
