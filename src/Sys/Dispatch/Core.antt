-- ===== src/Sys/Dispatch/Core.antt =====
-- kernel/src/kernel/sys/syscall_core.rs: the arms of `dispatch` for processes, memory, files and signals.
use oxide_os.Prelude.{ltb, if◌then◌else◌}
use oxide_os.Sys.Number.{Syscall}
use oxide_os.Sys.Guard.{Memory}
use oxide_os.Sys.Call.{
  Plain, Call, Query, Halt, Prog, SyscallRequest, slice, done, halt, ask, ok_result, u16, u32, i32,
  i64, forward, checked,
}
use oxide_os.Sys.Files.{
  sys_open, sys_close, sys_read, sys_write, sys_print, sys_pipe, sys_readdir, sys_mkdir, sys_chdir,
  sys_getcwd, sys_stat, sys_dup2,
}
use oxide_os.Sys.Services.{
  sys_sleep, sys_get_system_info, sys_exec, sys_exec_args, sys_fork, sys_waitpid, sys_brk, sys_kill,
  sys_getenv, sys_setenv,
}
use oxide_os.Sys.Dispatch.Objects.{dispatch_objects}

-- The arms that come later are the next function's.
unfoldable pub dispatch_core : Memory → SyscallRequest → Syscall → Prog
dispatch_core m q Syscall.exit = halt (Halt.exit (i32 q.arg1))
dispatch_core m q Syscall.fork = sys_fork
dispatch_core m q Syscall.wait = sys_waitpid q.arg1
dispatch_core m q Syscall.exec = sys_exec m q.arg1 q.arg2
dispatch_core m q Syscall.exec_args = sys_exec_args q.arg1 q.arg2 q.arg3 q.arg4
dispatch_core m q Syscall.get_pid = ask Query.current_pid (λ pid. done (ok_result (i64 pid)))
dispatch_core m q Syscall.mmap = forward (Call.plain (Plain.mmap_anon q.arg1 q.arg2))
dispatch_core m q Syscall.munmap = forward (Call.plain (Plain.munmap_impl q.arg1 q.arg2))
dispatch_core m q Syscall.brk = sys_brk q.arg1
dispatch_core m q Syscall.read = sys_read (i32 q.arg1) q.arg2 q.arg3
dispatch_core m q Syscall.write = sys_write (i32 q.arg1) q.arg2 q.arg3
dispatch_core m q Syscall.open_file = sys_open m q.arg1 q.arg2
dispatch_core m q Syscall.close = sys_close (i32 q.arg1)
dispatch_core m q Syscall.print = sys_print q.arg1 q.arg2
dispatch_core m q Syscall.get_char = forward (Call.plain Plain.get_char)
dispatch_core m q Syscall.get_time = ask Query.current_ticks (λ ticks. done (ok_result (i64 ticks)))
dispatch_core m q Syscall.sleep = sys_sleep q.arg1
dispatch_core m q Syscall.get_system_info = sys_get_system_info q.arg1
dispatch_core m q Syscall.pipe = sys_pipe q.arg1 q.arg2
dispatch_core m q Syscall.read_dir =
    if ltb q.arg1 4096
    then checked q.arg2 q.arg3 (forward (Call.getdents64_impl (i32 q.arg1) (slice q.arg2 q.arg3)))
    else sys_readdir q.arg1 q.arg2 q.arg3 q.arg4
dispatch_core m q Syscall.mkdir = sys_mkdir q.arg1 q.arg2
dispatch_core m q Syscall.chdir = sys_chdir m q.arg1
dispatch_core m q Syscall.getcwd = sys_getcwd q.arg1 q.arg2
dispatch_core m q Syscall.stat = sys_stat m q.arg1 q.arg2 q.arg3
dispatch_core m q Syscall.fstat = forward (Call.plain (Plain.fstat_impl (i32 q.arg1) q.arg2))
dispatch_core m q Syscall.poll = forward (Call.plain (Plain.poll_impl q.arg1 q.arg2 (i64 q.arg3)))
dispatch_core m q Syscall.unlink =
    checked q.arg1 q.arg2 (forward (Call.unlink_impl (slice q.arg1 q.arg2)))
dispatch_core m q Syscall.rename =
    checked q.arg1 q.arg2 (
      checked q.arg3 q.arg4
        (forward (Call.rename_impl (slice q.arg1 q.arg2) (slice q.arg3 q.arg4))))
dispatch_core m q Syscall.truncate = forward (Call.plain (Plain.truncate_impl (i32 q.arg1) q.arg2))
dispatch_core m q Syscall.getenv = sys_getenv q.arg1 q.arg2 q.arg3 q.arg4
dispatch_core m q Syscall.setenv = sys_setenv q.arg1 q.arg2 q.arg3 q.arg4
dispatch_core m q Syscall.dup2 = sys_dup2 (i32 q.arg1) (i32 q.arg2)
dispatch_core m q Syscall.kill = sys_kill q.arg1 q.arg2
dispatch_core m q Syscall.ioctl = forward (Call.plain (Plain.ioctl_impl (i32 q.arg1) q.arg2 q.arg3))
dispatch_core m q Syscall.sigaction =
    forward (Call.plain (Plain.sigaction_impl (u32 q.arg1) q.arg2 q.arg3))
dispatch_core m q Syscall.sigreturn = forward (Call.plain Plain.sigreturn_impl)
dispatch_core m q Syscall.chmod =
    checked q.arg1 q.arg2 (forward (Call.chmod_impl (slice q.arg1 q.arg2) (u16 q.arg3)))
dispatch_core m q Syscall.chown =
    checked q.arg1 q.arg2
      (forward (Call.chown_impl (slice q.arg1 q.arg2) (u32 q.arg3) (u32 q.arg4)))
dispatch_core m q later = dispatch_objects m q later
