-- ===== src/Sys/Dispatch/Checked/Stubs.antt =====
-- The arms of `dispatch_stubs` hand the kernel only slices of user memory.
use oxide_os.Prelude.{◌||◌, ltb, ◌==◌}
use oxide_os.Sys.Number.{Syscall}
use oxide_os.Sys.Guard.{Memory, strnlen_user}
use oxide_os.Sys.Call.{Plain, Call, SyscallRequest, slice, forward, u16, u32, i32, i64}
use oxide_os.Sys.Call.Checked.{
  Checked, CheckedCall, if-Checked, checked-Checked, forward-Checked, forward_ok-Checked,
}
use oxide_os.Sys.Files.Checked.{with_path-Checked}
use oxide_os.Sys.Services.Checked.{plain-Checked}
use oxide_os.Sys.Dispatch.Stubs.{dispatch_stubs}

pub dispatch_stubs-Checked :
    (m : Memory) (q : SyscallRequest) (s : Syscall) → Checked (dispatch_stubs m q s)
unfolding dispatch_stubs Checked CheckedCall
dispatch_stubs-Checked m q Syscall.sched_yield =
    forward_ok-Checked (Call.plain Plain.sched_yield_impl) tt
dispatch_stubs-Checked m q Syscall.msync =
    forward_ok-Checked (Call.plain (Plain.msync_impl q.arg1 q.arg2 (u32 q.arg3))) tt
dispatch_stubs-Checked m q Syscall.mincore = plain-Checked (Plain.mincore_impl q.arg1 q.arg2 q.arg3)
dispatch_stubs-Checked m q Syscall.madvise =
    forward_ok-Checked (Call.plain (Plain.madvise_impl q.arg1 q.arg2 (u32 q.arg3))) tt
dispatch_stubs-Checked m q Syscall.dup = plain-Checked (Plain.dup_impl (i32 q.arg1))
dispatch_stubs-Checked m q Syscall.vfork = plain-Checked Plain.vfork_impl
dispatch_stubs-Checked m q Syscall.flock =
    forward_ok-Checked (Call.plain (Plain.flock_impl (i32 q.arg1) (u32 q.arg2))) tt
dispatch_stubs-Checked m q Syscall.fsync =
    forward_ok-Checked (Call.plain (Plain.fsync_impl (i32 q.arg1))) tt
dispatch_stubs-Checked m q Syscall.fdatasync =
    forward_ok-Checked (Call.plain (Plain.fdatasync_impl (i32 q.arg1))) tt
dispatch_stubs-Checked m q Syscall.sync = forward_ok-Checked (Call.plain Plain.sync_impl) tt
dispatch_stubs-Checked m q Syscall.ftruncate =
    plain-Checked (Plain.ftruncate_impl (i32 q.arg1) q.arg2)
dispatch_stubs-Checked m q Syscall.fchdir = plain-Checked (Plain.fchdir_impl (i32 q.arg1))
dispatch_stubs-Checked m q Syscall.rmdir =
    checked-Checked q.arg1 q.arg2 _ (λ h. forward-Checked (Call.rmdir_impl (slice q.arg1 q.arg2)) h)
dispatch_stubs-Checked m q Syscall.creat =
    checked-Checked q.arg1 q.arg2 _
      (λ h. forward-Checked (Call.creat_impl (slice q.arg1 q.arg2) (u32 q.arg3)) h)
dispatch_stubs-Checked m q Syscall.readlink =
    with_path-Checked q.arg1 (strnlen_user m q.arg1 4096)
      (λ path. forward (Call.readlink_impl path q.arg2 q.arg3))
      (λ h.
        forward-Checked
          (Call.readlink_impl (slice q.arg1 (strnlen_user m q.arg1 4096)) q.arg2 q.arg3) h)
dispatch_stubs-Checked m q Syscall.fchmod =
    forward_ok-Checked (Call.plain (Plain.fchmod_impl (i32 q.arg1) (u16 q.arg2))) tt
dispatch_stubs-Checked m q Syscall.fchown =
    forward_ok-Checked (Call.plain (Plain.fchown_impl (i32 q.arg1) (u32 q.arg2) (u32 q.arg3))) tt
dispatch_stubs-Checked m q Syscall.lchown =
    checked-Checked q.arg1 q.arg2 _
      (λ h. forward-Checked (Call.lchown_impl (slice q.arg1 q.arg2) (u32 q.arg3) (u32 q.arg4)) h)
dispatch_stubs-Checked m q Syscall.umask =
    forward_ok-Checked (Call.plain (Plain.umask_impl (u32 q.arg1))) tt
dispatch_stubs-Checked m q Syscall.getrlimit =
    plain-Checked (Plain.getrlimit_impl (u32 q.arg1) q.arg2)
dispatch_stubs-Checked m q Syscall.getrusage =
    plain-Checked (Plain.getrusage_impl (i32 q.arg1) q.arg2)
dispatch_stubs-Checked m q Syscall.sysinfo = plain-Checked (Plain.sysinfo_impl q.arg1)
dispatch_stubs-Checked m q Syscall.times =
    forward_ok-Checked (Call.plain (Plain.times_impl q.arg1)) tt
dispatch_stubs-Checked m q Syscall.syslog =
    forward_ok-Checked (Call.plain (Plain.syslog_impl (u32 q.arg1) q.arg2 (u32 q.arg3))) tt
dispatch_stubs-Checked m q Syscall.setpgid =
    forward_ok-Checked (Call.plain (Plain.setpgid_impl (u32 q.arg1) (u32 q.arg2))) tt
dispatch_stubs-Checked m q Syscall.getpgrp = forward_ok-Checked (Call.plain Plain.getpgrp_impl) tt
dispatch_stubs-Checked m q Syscall.setsid = forward_ok-Checked (Call.plain Plain.setsid_impl) tt
dispatch_stubs-Checked m q Syscall.setreuid =
    forward_ok-Checked (Call.plain (Plain.setreuid_impl (u32 q.arg1) (u32 q.arg2))) tt
dispatch_stubs-Checked m q Syscall.setregid =
    forward_ok-Checked (Call.plain (Plain.setregid_impl (u32 q.arg1) (u32 q.arg2))) tt
dispatch_stubs-Checked m q Syscall.getgroups =
    forward_ok-Checked (Call.plain (Plain.getgroups_impl (u32 q.arg1) q.arg2)) tt
dispatch_stubs-Checked m q Syscall.setresuid =
    forward_ok-Checked (Call.plain (Plain.setresuid_impl (u32 q.arg1) (u32 q.arg2) (u32 q.arg3))) tt
dispatch_stubs-Checked m q Syscall.setresgid =
    forward_ok-Checked (Call.plain (Plain.setresgid_impl (u32 q.arg1) (u32 q.arg2) (u32 q.arg3))) tt
dispatch_stubs-Checked m q Syscall.getresuid =
    forward_ok-Checked (Call.plain (Plain.getresuid_impl q.arg1 q.arg2 q.arg3)) tt
dispatch_stubs-Checked m q Syscall.getresgid =
    forward_ok-Checked (Call.plain (Plain.getresgid_impl q.arg1 q.arg2 q.arg3)) tt
dispatch_stubs-Checked m q Syscall.getpgid =
    forward_ok-Checked (Call.plain (Plain.getpgid_impl (u32 q.arg1))) tt
dispatch_stubs-Checked m q Syscall.select =
    plain-Checked (Plain.select_impl q.arg1 q.arg2 q.arg3 q.arg4 q.arg5)
dispatch_stubs-Checked m q Syscall.pselect6 =
    plain-Checked (Plain.pselect6_impl q.arg1 q.arg2 q.arg3 q.arg4 q.arg5)
dispatch_stubs-Checked m q Syscall.pread64 =
    plain-Checked (Plain.pread64_impl (i32 q.arg1) q.arg2 q.arg3 (i64 q.arg4))
dispatch_stubs-Checked m q Syscall.pwrite64 =
    plain-Checked (Plain.pwrite64_impl (i32 q.arg1) q.arg2 q.arg3 (i64 q.arg4))
dispatch_stubs-Checked m q Syscall.sendfile =
    plain-Checked (Plain.sendfile_impl (i32 q.arg1) (i32 q.arg2) q.arg3 q.arg4)
dispatch_stubs-Checked m q Syscall.shmctl = tt
dispatch_stubs-Checked m q Syscall.alarm =
    forward_ok-Checked (Call.plain (Plain.alarm_impl (u32 q.arg1))) tt
dispatch_stubs-Checked m q Syscall.pause = plain-Checked Plain.pause_impl
dispatch_stubs-Checked m q Syscall.sig_pending = plain-Checked (Plain.sigpending_impl q.arg1 q.arg2)
dispatch_stubs-Checked m q Syscall.sig_suspend = plain-Checked (Plain.sigsuspend_impl q.arg1 q.arg2)
dispatch_stubs-Checked m q Syscall.getitimer = tt
dispatch_stubs-Checked m q Syscall.setitimer = tt
dispatch_stubs-Checked m q Syscall.prlimit64 =
    forward_ok-Checked (Call.plain (Plain.prlimit64_impl (u32 q.arg1) (u32 q.arg2) q.arg3 q.arg4))
      tt
dispatch_stubs-Checked m q Syscall.dns_resolve =
    if-Checked ((q.arg2 == 0) || ltb 253 q.arg2) _ _ (λ _. tt)
      (λ _.
        checked-Checked q.arg1 q.arg2 _
          (λ h. forward-Checked (Call.dns_resolve_impl (slice q.arg1 q.arg2)) h))
dispatch_stubs-Checked m q Syscall.invalid = tt
dispatch_stubs-Checked m q _ = tt
