-- ===== src/Sys/Dispatch/Checked/Core.antt =====
-- The arms of `dispatch_core` hand the kernel only slices of user memory.
use oxide_os.Prelude.{ltb}
use oxide_os.Sys.Number.{Syscall}
use oxide_os.Sys.Guard.{Memory}
use oxide_os.Sys.Call.{Plain, Call, SyscallRequest, slice, u16, u32, i32, i64}
use oxide_os.Sys.Call.Checked.{Checked, CheckedCall, if-Checked, checked-Checked, forward-Checked}
use oxide_os.Sys.Files.Checked.{
  sys_open-Checked, sys_close-Checked, sys_read-Checked, sys_write-Checked, sys_print-Checked,
  sys_pipe-Checked, sys_readdir-Checked, sys_mkdir-Checked, sys_chdir-Checked, sys_getcwd-Checked,
  sys_stat-Checked, sys_dup2-Checked,
}
use oxide_os.Sys.Services.Checked.{
  plain-Checked, sys_sleep-Checked, sys_get_system_info-Checked, sys_exec-Checked,
  sys_exec_args-Checked, sys_fork-Checked, sys_waitpid-Checked, sys_brk-Checked, sys_kill-Checked,
  sys_getenv-Checked, sys_setenv-Checked,
}
use oxide_os.Sys.Dispatch.Core.{dispatch_core}
use oxide_os.Sys.Dispatch.Checked.Objects.{dispatch_objects-Checked}

pub dispatch_core-Checked :
    (m : Memory) (q : SyscallRequest) (s : Syscall) → Checked (dispatch_core m q s)
unfolding dispatch_core Checked CheckedCall
dispatch_core-Checked m q Syscall.exit = tt
dispatch_core-Checked m q Syscall.fork = sys_fork-Checked
dispatch_core-Checked m q Syscall.wait = sys_waitpid-Checked q.arg1
dispatch_core-Checked m q Syscall.exec = sys_exec-Checked m q.arg1 q.arg2
dispatch_core-Checked m q Syscall.exec_args = sys_exec_args-Checked q.arg1 q.arg2 q.arg3 q.arg4
dispatch_core-Checked m q Syscall.get_pid = λ r. tt
dispatch_core-Checked m q Syscall.mmap = plain-Checked (Plain.mmap_anon q.arg1 q.arg2)
dispatch_core-Checked m q Syscall.munmap = plain-Checked (Plain.munmap_impl q.arg1 q.arg2)
dispatch_core-Checked m q Syscall.brk = sys_brk-Checked q.arg1
dispatch_core-Checked m q Syscall.read = sys_read-Checked (i32 q.arg1) q.arg2 q.arg3
dispatch_core-Checked m q Syscall.write = sys_write-Checked (i32 q.arg1) q.arg2 q.arg3
dispatch_core-Checked m q Syscall.open_file = sys_open-Checked m q.arg1 q.arg2
dispatch_core-Checked m q Syscall.close = sys_close-Checked (i32 q.arg1)
dispatch_core-Checked m q Syscall.print = sys_print-Checked q.arg1 q.arg2
dispatch_core-Checked m q Syscall.get_char = plain-Checked Plain.get_char
dispatch_core-Checked m q Syscall.get_time = λ r. tt
dispatch_core-Checked m q Syscall.sleep = sys_sleep-Checked q.arg1
dispatch_core-Checked m q Syscall.get_system_info = sys_get_system_info-Checked q.arg1
dispatch_core-Checked m q Syscall.pipe = sys_pipe-Checked q.arg1 q.arg2
dispatch_core-Checked m q Syscall.read_dir =
    if-Checked (ltb q.arg1 4096) _ _
      (λ _.
        checked-Checked q.arg2 q.arg3 _
          (λ h. forward-Checked (Call.getdents64_impl (i32 q.arg1) (slice q.arg2 q.arg3)) h))
      (λ _. sys_readdir-Checked q.arg1 q.arg2 q.arg3 q.arg4)
dispatch_core-Checked m q Syscall.mkdir = sys_mkdir-Checked q.arg1 q.arg2
dispatch_core-Checked m q Syscall.chdir = sys_chdir-Checked m q.arg1
dispatch_core-Checked m q Syscall.getcwd = sys_getcwd-Checked q.arg1 q.arg2
dispatch_core-Checked m q Syscall.stat = sys_stat-Checked m q.arg1 q.arg2 q.arg3
dispatch_core-Checked m q Syscall.fstat = plain-Checked (Plain.fstat_impl (i32 q.arg1) q.arg2)
dispatch_core-Checked m q Syscall.poll = plain-Checked (Plain.poll_impl q.arg1 q.arg2 (i64 q.arg3))
dispatch_core-Checked m q Syscall.unlink =
    checked-Checked q.arg1 q.arg2 _
      (λ h. forward-Checked (Call.unlink_impl (slice q.arg1 q.arg2)) h)
dispatch_core-Checked m q Syscall.rename = checked-Checked q.arg1 q.arg2 _ (λ h.
    checked-Checked q.arg3 q.arg4 _
      (λ k. forward-Checked (Call.rename_impl (slice q.arg1 q.arg2) (slice q.arg3 q.arg4)) (h, k)))
dispatch_core-Checked m q Syscall.truncate = plain-Checked (Plain.truncate_impl (i32 q.arg1) q.arg2)
dispatch_core-Checked m q Syscall.getenv = sys_getenv-Checked q.arg1 q.arg2 q.arg3 q.arg4
dispatch_core-Checked m q Syscall.setenv = sys_setenv-Checked q.arg1 q.arg2 q.arg3 q.arg4
dispatch_core-Checked m q Syscall.dup2 = sys_dup2-Checked (i32 q.arg1) (i32 q.arg2)
dispatch_core-Checked m q Syscall.kill = sys_kill-Checked q.arg1 q.arg2
dispatch_core-Checked m q Syscall.ioctl =
    plain-Checked (Plain.ioctl_impl (i32 q.arg1) q.arg2 q.arg3)
dispatch_core-Checked m q Syscall.sigaction =
    plain-Checked (Plain.sigaction_impl (u32 q.arg1) q.arg2 q.arg3)
dispatch_core-Checked m q Syscall.sigreturn = plain-Checked Plain.sigreturn_impl
dispatch_core-Checked m q Syscall.chmod =
    checked-Checked q.arg1 q.arg2 _
      (λ h. forward-Checked (Call.chmod_impl (slice q.arg1 q.arg2) (u16 q.arg3)) h)
dispatch_core-Checked m q Syscall.chown =
    checked-Checked q.arg1 q.arg2 _
      (λ h. forward-Checked (Call.chown_impl (slice q.arg1 q.arg2) (u32 q.arg3) (u32 q.arg4)) h)
dispatch_core-Checked m q later = dispatch_objects-Checked m q later
