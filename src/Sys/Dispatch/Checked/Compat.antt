-- ===== src/Sys/Dispatch/Checked/Compat.antt =====
-- The arms of `dispatch_compat` hand the kernel only slices of user memory.
use oxide_os.Sys.Number.{Syscall}
use oxide_os.Sys.Guard.{Memory, strnlen_user}
use oxide_os.Sys.Call.{Plain, Call, SyscallRequest, slice, forward, u32, i32, i64}
use oxide_os.Sys.Call.Checked.{
  Checked, CheckedCall, checked-Checked, forward-Checked, forward_ok-Checked,
}
use oxide_os.Sys.Files.{stat_args}
use oxide_os.Sys.Files.Checked.{with_path-Checked, status-Checked}
use oxide_os.Sys.Services.Checked.{plain-Checked}
use oxide_os.Sys.Dispatch.Compat.{dispatch_compat}
use oxide_os.Sys.Dispatch.Checked.Stubs.{dispatch_stubs-Checked}

pub dispatch_compat-Checked :
    (m : Memory) (q : SyscallRequest) (s : Syscall) → Checked (dispatch_compat m q s)
unfolding dispatch_compat Checked CheckedCall
dispatch_compat-Checked m q Syscall.mprotect =
    plain-Checked (Plain.mprotect_impl q.arg1 q.arg2 q.arg3)
dispatch_compat-Checked m q Syscall.getppid = forward_ok-Checked (Call.plain Plain.getppid_impl) tt
dispatch_compat-Checked m q Syscall.uname = plain-Checked (Plain.uname_impl q.arg1)
dispatch_compat-Checked m q Syscall.set_tid_address =
    forward_ok-Checked (Call.plain Plain.set_tid_address_impl) tt
dispatch_compat-Checked m q Syscall.arch_prctl = plain-Checked (Plain.arch_prctl_impl q.arg1 q.arg2)
dispatch_compat-Checked m q Syscall.clock_gettime =
    plain-Checked (Plain.clock_gettime_impl q.arg1 q.arg2)
dispatch_compat-Checked m q Syscall.fcntl =
    plain-Checked (Plain.fcntl_impl (i32 q.arg1) q.arg2 q.arg3)
dispatch_compat-Checked m q Syscall.lseek =
    plain-Checked (Plain.lseek_impl (i32 q.arg1) (i64 q.arg2) (u32 q.arg3))
dispatch_compat-Checked m q Syscall.exit_group = tt
dispatch_compat-Checked m q Syscall.sigprocmask =
    plain-Checked (Plain.sigprocmask_impl (u32 q.arg1) q.arg2 q.arg3)
dispatch_compat-Checked m q Syscall.lstat =
    status-Checked q.arg1 (stat_args m q.arg1 q.arg2 q.arg3).0 (stat_args m q.arg1 q.arg2 q.arg3).1
      Call.lstat_impl (λ h k. (h, k))
dispatch_compat-Checked m q Syscall.readv =
    plain-Checked (Plain.readv_impl (i32 q.arg1) q.arg2 (u32 q.arg3))
dispatch_compat-Checked m q Syscall.mremap = plain-Checked (Plain.mremap_impl q.arg1 q.arg2 q.arg3)
dispatch_compat-Checked m q Syscall.getuid = forward_ok-Checked (Call.plain Plain.getuid_impl) tt
dispatch_compat-Checked m q Syscall.geteuid = forward_ok-Checked (Call.plain Plain.getuid_impl) tt
dispatch_compat-Checked m q Syscall.getgid = forward_ok-Checked (Call.plain Plain.getgid_impl) tt
dispatch_compat-Checked m q Syscall.getegid = forward_ok-Checked (Call.plain Plain.getgid_impl) tt
dispatch_compat-Checked m q Syscall.setuid =
    forward_ok-Checked (Call.plain (Plain.setuid_impl (u32 q.arg1))) tt
dispatch_compat-Checked m q Syscall.setgid = tt
dispatch_compat-Checked m q Syscall.gettid = forward_ok-Checked (Call.plain Plain.gettid_impl) tt
dispatch_compat-Checked m q Syscall.futex =
    plain-Checked (Plain.futex_impl q.arg1 (u32 q.arg2) (u32 q.arg3))
dispatch_compat-Checked m q Syscall.openat =
    with_path-Checked q.arg2 (strnlen_user m q.arg2 4096)
      (λ path. forward (Call.fs_open path (u32 q.arg3)))
      (λ h.
        forward-Checked (Call.fs_open (slice q.arg2 (strnlen_user m q.arg2 4096)) (u32 q.arg3)) h)
dispatch_compat-Checked m q Syscall.pipe2 = checked-Checked q.arg1 4 _ (λ h.
    checked-Checked q.arg2 4 _
      (λ k. forward-Checked (Call.pipe2_impl q.arg1 q.arg2 (u32 q.arg3)) (h, k)))
dispatch_compat-Checked m q Syscall.writev =
    plain-Checked (Plain.writev_impl (i32 q.arg1) q.arg2 (u32 q.arg3))
dispatch_compat-Checked m q Syscall.access =
    with_path-Checked q.arg1 (strnlen_user m q.arg1 4096)
      (λ path. forward (Call.access_impl path (u32 q.arg2)))
      (λ h.
        forward-Checked (Call.access_impl (slice q.arg1 (strnlen_user m q.arg1 4096)) (u32 q.arg2))
          h)
dispatch_compat-Checked m q later = dispatch_stubs-Checked m q later
