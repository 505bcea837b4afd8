-- ===== src/Sys/Dispatch/Stubs.antt =====
-- kernel/src/kernel/sys/syscall_core.rs: the arms of `dispatch` for the rest of the Linux ABI, and numbers of no call.
use oxide_os.Prelude.{ltb, pos, ◌||◌, ◌==◌, if◌then◌else◌}
use oxide_os.Sys.Number.{Syscall}
use oxide_os.Sys.Guard.{Memory, einval, enosys, strnlen_user}
use oxide_os.Sys.Call.{
  Plain, Call, Prog, SyscallRequest, slice, done, ok_result, u16, u32, i32, i64, return_error,
  forward, forward_ok, checked,
}
use oxide_os.Sys.Files.{with_path}

unfoldable pub dispatch_stubs : Memory → SyscallRequest → Syscall → Prog
dispatch_stubs m q Syscall.sched_yield = forward_ok (Call.plain Plain.sched_yield_impl)
dispatch_stubs m q Syscall.msync =
    forward_ok (Call.plain (Plain.msync_impl q.arg1 q.arg2 (u32 q.arg3)))
dispatch_stubs m q Syscall.mincore = forward (Call.plain (Plain.mincore_impl q.arg1 q.arg2 q.arg3))
dispatch_stubs m q Syscall.madvise =
    forward_ok (Call.plain (Plain.madvise_impl q.arg1 q.arg2 (u32 q.arg3)))
dispatch_stubs m q Syscall.dup = forward (Call.plain (Plain.dup_impl (i32 q.arg1)))
dispatch_stubs m q Syscall.vfork = forward (Call.plain Plain.vfork_impl)
dispatch_stubs m q Syscall.flock =
    forward_ok (Call.plain (Plain.flock_impl (i32 q.arg1) (u32 q.arg2)))
dispatch_stubs m q Syscall.fsync = forward_ok (Call.plain (Plain.fsync_impl (i32 q.arg1)))
dispatch_stubs m q Syscall.fdatasync = forward_ok (Call.plain (Plain.fdatasync_impl (i32 q.arg1)))
dispatch_stubs m q Syscall.sync = forward_ok (Call.plain Plain.sync_impl)
dispatch_stubs m q Syscall.ftruncate =
    forward (Call.plain (Plain.ftruncate_impl (i32 q.arg1) q.arg2))
dispatch_stubs m q Syscall.fchdir = forward (Call.plain (Plain.fchdir_impl (i32 q.arg1)))
dispatch_stubs m q Syscall.rmdir =
    checked q.arg1 q.arg2 (forward (Call.rmdir_impl (slice q.arg1 q.arg2)))
dispatch_stubs m q Syscall.creat =
    checked q.arg1 q.arg2 (forward (Call.creat_impl (slice q.arg1 q.arg2) (u32 q.arg3)))
dispatch_stubs m q Syscall.readlink =
    with_path q.arg1 (strnlen_user m q.arg1 4096)
      (λ path. forward (Call.readlink_impl path q.arg2 q.arg3))
dispatch_stubs m q Syscall.fchmod =
    forward_ok (Call.plain (Plain.fchmod_impl (i32 q.arg1) (u16 q.arg2)))
dispatch_stubs m q Syscall.fchown =
    forward_ok (Call.plain (Plain.fchown_impl (i32 q.arg1) (u32 q.arg2) (u32 q.arg3)))
dispatch_stubs m q Syscall.lchown =
    checked q.arg1 q.arg2
      (forward (Call.lchown_impl (slice q.arg1 q.arg2) (u32 q.arg3) (u32 q.arg4)))
dispatch_stubs m q Syscall.umask = forward_ok (Call.plain (Plain.umask_impl (u32 q.arg1)))
dispatch_stubs m q Syscall.getrlimit =
    forward (Call.plain (Plain.getrlimit_impl (u32 q.arg1) q.arg2))
dispatch_stubs m q Syscall.getrusage =
    forward (Call.plain (Plain.getrusage_impl (i32 q.arg1) q.arg2))
dispatch_stubs m q Syscall.sysinfo = forward (Call.plain (Plain.sysinfo_impl q.arg1))
dispatch_stubs m q Syscall.times = forward_ok (Call.plain (Plain.times_impl q.arg1))
dispatch_stubs m q Syscall.syslog =
    forward_ok (Call.plain (Plain.syslog_impl (u32 q.arg1) q.arg2 (u32 q.arg3)))
dispatch_stubs m q Syscall.setpgid =
    forward_ok (Call.plain (Plain.setpgid_impl (u32 q.arg1) (u32 q.arg2)))
dispatch_stubs m q Syscall.getpgrp = forward_ok (Call.plain Plain.getpgrp_impl)
dispatch_stubs m q Syscall.setsid = forward_ok (Call.plain Plain.setsid_impl)
dispatch_stubs m q Syscall.setreuid =
    forward_ok (Call.plain (Plain.setreuid_impl (u32 q.arg1) (u32 q.arg2)))
dispatch_stubs m q Syscall.setregid =
    forward_ok (Call.plain (Plain.setregid_impl (u32 q.arg1) (u32 q.arg2)))
dispatch_stubs m q Syscall.getgroups =
    forward_ok (Call.plain (Plain.getgroups_impl (u32 q.arg1) q.arg2))
dispatch_stubs m q Syscall.setresuid =
    forward_ok (Call.plain (Plain.setresuid_impl (u32 q.arg1) (u32 q.arg2) (u32 q.arg3)))
dispatch_stubs m q Syscall.setresgid =
    forward_ok (Call.plain (Plain.setresgid_impl (u32 q.arg1) (u32 q.arg2) (u32 q.arg3)))
dispatch_stubs m q Syscall.getresuid =
    forward_ok (Call.plain (Plain.getresuid_impl q.arg1 q.arg2 q.arg3))
dispatch_stubs m q Syscall.getresgid =
    forward_ok (Call.plain (Plain.getresgid_impl q.arg1 q.arg2 q.arg3))
dispatch_stubs m q Syscall.getpgid = forward_ok (Call.plain (Plain.getpgid_impl (u32 q.arg1)))
dispatch_stubs m q Syscall.select =
    forward (Call.plain (Plain.select_impl q.arg1 q.arg2 q.arg3 q.arg4 q.arg5))
dispatch_stubs m q Syscall.pselect6 =
    forward (Call.plain (Plain.pselect6_impl q.arg1 q.arg2 q.arg3 q.arg4 q.arg5))
dispatch_stubs m q Syscall.pread64 =
    forward (Call.plain (Plain.pread64_impl (i32 q.arg1) q.arg2 q.arg3 (i64 q.arg4)))
dispatch_stubs m q Syscall.pwrite64 =
    forward (Call.plain (Plain.pwrite64_impl (i32 q.arg1) q.arg2 q.arg3 (i64 q.arg4)))
dispatch_stubs m q Syscall.sendfile =
    forward (Call.plain (Plain.sendfile_impl (i32 q.arg1) (i32 q.arg2) q.arg3 q.arg4))
dispatch_stubs m q Syscall.shmctl = done (ok_result (pos 0))
dispatch_stubs m q Syscall.alarm = forward_ok (Call.plain (Plain.alarm_impl (u32 q.arg1)))
dispatch_stubs m q Syscall.pause = forward (Call.plain Plain.pause_impl)
dispatch_stubs m q Syscall.sig_pending = forward (Call.plain (Plain.sigpending_impl q.arg1 q.arg2))
dispatch_stubs m q Syscall.sig_suspend = forward (Call.plain (Plain.sigsuspend_impl q.arg1 q.arg2))
dispatch_stubs m q Syscall.getitimer = done (ok_result (pos 0))
dispatch_stubs m q Syscall.setitimer = done (ok_result (pos 0))
dispatch_stubs m q Syscall.prlimit64 =
    forward_ok (Call.plain (Plain.prlimit64_impl (u32 q.arg1) (u32 q.arg2) q.arg3 q.arg4))
dispatch_stubs m q Syscall.dns_resolve =
    if (q.arg2 == 0) || ltb 253 q.arg2
    then return_error einval
    else checked q.arg1 q.arg2 (forward (Call.dns_resolve_impl (slice q.arg1 q.arg2)))
dispatch_stubs m q Syscall.invalid = return_error enosys
dispatch_stubs m q _ = return_error enosys
