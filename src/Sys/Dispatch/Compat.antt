-- ===== src/Sys/Dispatch/Compat.antt =====
-- kernel/src/kernel/sys/syscall_core.rs: the arms of `dispatch` for the Linux ABI, from `mprotect` to `access`.
use oxide_os.Prelude.{pos}
use oxide_os.Sys.Number.{Syscall}
use oxide_os.Sys.Guard.{Memory, strnlen_user}
use oxide_os.Sys.Call.{
  Plain, Call, Halt, Prog, SyscallRequest, done, halt, ok_result, u32, i32, i64, forward,
  forward_ok, checked,
}
use oxide_os.Sys.Files.{with_path, stat_args}
use oxide_os.Sys.Dispatch.Stubs.{dispatch_stubs}

-- The arms that come later are the next function's.
unfoldable pub dispatch_compat : Memory → SyscallRequest → Syscall → Prog
dispatch_compat m q Syscall.mprotect =
    forward (Call.plain (Plain.mprotect_impl q.arg1 q.arg2 q.arg3))
dispatch_compat m q Syscall.getppid = forward_ok (Call.plain Plain.getppid_impl)
dispatch_compat m q Syscall.uname = forward (Call.plain (Plain.uname_impl q.arg1))
dispatch_compat m q Syscall.set_tid_address = forward_ok (Call.plain Plain.set_tid_address_impl)
dispatch_compat m q Syscall.arch_prctl = forward (Call.plain (Plain.arch_prctl_impl q.arg1 q.arg2))
dispatch_compat m q Syscall.clock_gettime =
    forward (Call.plain (Plain.clock_gettime_impl q.arg1 q.arg2))
dispatch_compat m q Syscall.fcntl =
    forward (Call.plain (Plain.fcntl_impl (i32 q.arg1) q.arg2 q.arg3))
dispatch_compat m q Syscall.lseek =
    forward (Call.plain (Plain.lseek_impl (i32 q.arg1) (i64 q.arg2) (u32 q.arg3)))
dispatch_compat m q Syscall.exit_group = halt (Halt.exit_group (i32 q.arg1))
dispatch_compat m q Syscall.sigprocmask =
    forward (Call.plain (Plain.sigprocmask_impl (u32 q.arg1) q.arg2 q.arg3))
dispatch_compat m q Syscall.lstat =
    let (path_len, stat_buf) = stat_args m q.arg1 q.arg2 q.arg3 in
    with_path q.arg1 path_len
      (λ path. checked stat_buf 144 (forward (Call.lstat_impl path stat_buf)))
dispatch_compat m q Syscall.readv =
    forward (Call.plain (Plain.readv_impl (i32 q.arg1) q.arg2 (u32 q.arg3)))
dispatch_compat m q Syscall.mremap = forward (Call.plain (Plain.mremap_impl q.arg1 q.arg2 q.arg3))
dispatch_compat m q Syscall.getuid = forward_ok (Call.plain Plain.getuid_impl)
dispatch_compat m q Syscall.geteuid = forward_ok (Call.plain Plain.getuid_impl)
dispatch_compat m q Syscall.getgid = forward_ok (Call.plain Plain.getgid_impl)
dispatch_compat m q Syscall.getegid = forward_ok (Call.plain Plain.getgid_impl)
dispatch_compat m q Syscall.setuid = forward_ok (Call.plain (Plain.setuid_impl (u32 q.arg1)))
dispatch_compat m q Syscall.setgid = done (ok_result (pos 0))
dispatch_compat m q Syscall.gettid = forward_ok (Call.plain Plain.gettid_impl)
dispatch_compat m q Syscall.futex =
    forward (Call.plain (Plain.futex_impl q.arg1 (u32 q.arg2) (u32 q.arg3)))
dispatch_compat m q Syscall.openat =
    with_path q.arg2 (strnlen_user m q.arg2 4096) (λ path. forward (Call.fs_open path (u32 q.arg3)))
dispatch_compat m q Syscall.pipe2 =
    checked q.arg1 4 (checked q.arg2 4 (forward (Call.pipe2_impl q.arg1 q.arg2 (u32 q.arg3))))
dispatch_compat m q Syscall.writev =
    forward (Call.plain (Plain.writev_impl (i32 q.arg1) q.arg2 (u32 q.arg3)))
dispatch_compat m q Syscall.access =
    with_path q.arg1 (strnlen_user m q.arg1 4096)
      (λ path. forward (Call.access_impl path (u32 q.arg2)))
dispatch_compat m q later = dispatch_stubs m q later
