-- ===== src/Sys/Call.antt =====
-- kernel/src/kernel/sys/syscall_core.rs: what a system call asks of the kernel that runs it. The
-- trait `SyscallRuntime` is implemented by the kernel and by stubs, so a handler is a program of
-- calls to it, one constructor for each method: a tree that goes on with the answer. `&[u8]` and
-- `&mut [u8]` are slices of the caller's memory.
pub mod Default
pub mod Run
pub mod Checked
use oxide_os.Prelude.{
  ℕ, ◌+◌, ◌-◌, ◌*◌, ◌/◌, ◌%◌, ◌^◌, Bool, true, false, if◌then◌else◌, ltb, ℤ, pos, negsuc, ltb_ℤ,
}
use oxide_os.Sys.Number.{Syscall}
use oxide_os.Sys.Guard.{Check, ok, err, validate_user_range}

pub record SyscallResult : Type 0 where
  pub value : ℤ
  pub error : Bool

abbrev pub ok_result : ℤ → SyscallResult
ok_result value = record { value = value; error = false }

abbrev pub err_result : ℤ → SyscallResult
err_result code = record { value = code; error = true }

pub record SystemInfo : Type 0 where
  pub total_memory : ℕ
  pub free_memory : ℕ
  pub uptime_ms : ℕ
  pub process_count : ℕ

pub record SyscallRequest : Type 0 where
  pub number : ℕ
  pub arg1 : ℕ
  pub arg2 : ℕ
  pub arg3 : ℕ
  pub arg4 : ℕ
  pub arg5 : ℕ

-- `slice::from_raw_parts(ptr, len)`
pub record Slice : Type 0 where
  pub ptr : ℕ
  pub len : ℕ

abbrev pub slice : ℕ → ℕ → Slice
slice ptr len = record { ptr = ptr; len = len }

-- The methods that take numbers only.
pub data Plain : Type 0 where
  mmap_anon munmap_impl shmat_impl arch_prctl_impl clock_gettime_impl : ℕ → ℕ → Plain
  getrlimit_impl setpgid_impl setreuid_impl setregid_impl getgroups_impl : ℕ → ℕ → Plain
  sigpending_impl sigsuspend_impl kill_pid_sig gui_destroy_impl : ℕ → ℕ → Plain
  gui_present_impl : ℕ → ℕ → Plain
  get_char sigreturn_impl install_query_impl install_begin_impl : Plain
  getppid_impl set_tid_address_impl getuid_impl getgid_impl gettid_impl : Plain
  sched_yield_impl vfork_impl sync_impl getpgrp_impl setsid_impl : Plain
  pause_impl fork_child : Plain
  fstat_impl truncate_impl flock_impl ftruncate_impl fchmod_impl : ℤ → ℕ → Plain
  getrusage_impl : ℤ → ℕ → Plain
  poll_impl : ℕ → ℕ → ℤ → Plain
  ioctl_impl fcntl_impl readv_impl writev_impl fchown_impl : ℤ → ℕ → ℕ → Plain
  sigaction_impl socket_impl bind_impl connect_impl shmget_impl : ℕ → ℕ → ℕ → Plain
  mprotect_impl sigprocmask_impl mremap_impl futex_impl msync_impl : ℕ → ℕ → ℕ → Plain
  mincore_impl madvise_impl syslog_impl setresuid_impl setresgid_impl : ℕ → ℕ → ℕ → Plain
  getresuid_impl getresgid_impl gui_poll_event_impl : ℕ → ℕ → ℕ → Plain
  listen_impl : ℕ → ℤ → Plain
  accept_impl close_socket_impl shmdt_impl uname_impl setuid_impl : ℕ → Plain
  umask_impl sysinfo_impl times_impl getpgid_impl alarm_impl : ℕ → Plain
  waitpid_impl brk_program msgq_create msgq_destroy msgq_len : ℕ → Plain
  send_impl recv_impl prlimit64_impl gui_get_size_impl : ℕ → ℕ → ℕ → ℕ → Plain
  sendto_impl recvfrom_impl : ℕ → ℕ → ℕ → ℕ → ℕ → ℕ → Plain
  lseek_impl : ℤ → ℤ → ℕ → Plain
  dup_impl fsync_impl fdatasync_impl fchdir_impl fs_close : ℤ → Plain
  select_impl pselect6_impl : ℕ → ℕ → ℕ → ℕ → ℕ → Plain
  pread64_impl pwrite64_impl : ℤ → ℕ → ℕ → ℤ → Plain
  sendfile_impl : ℤ → ℤ → ℕ → ℕ → Plain
  dup2_impl : ℤ → ℤ → Plain
  gui_fill_rect_impl : ℕ → ℕ → ℕ → ℕ → ℕ → ℕ → ℕ → Plain
  gui_blit_shm_impl : ℕ → ℕ → ℕ → ℕ → ℕ → ℕ → ℕ → ℕ → ℕ → Plain

-- The methods that return an `i64`.
pub data Call : Type 0 where
  plain : Plain → Call
  exec_program mkdir_impl chdir_impl getcwd_impl unlink_impl rmdir_impl : Slice → Call
  dns_resolve_impl : Slice → Call
  exec_program_args readdir_impl rename_impl getenv_impl setenv_impl : Slice → Slice → Call
  getdents64_impl fs_read fs_write_file : ℤ → Slice → Call
  stat_impl lstat_impl chmod_impl fs_open access_impl creat_impl : Slice → ℕ → Call
  chown_impl readlink_impl lchown_impl : Slice → ℕ → ℕ → Call
  pipe_alloc msgrcv msgrcv_wait : ℕ → ℕ → Call
  pipe2_impl : ℕ → ℕ → ℕ → Call
  msgsnd : ℕ → ℕ → Slice → Call
  gui_create_impl : ℕ → Slice → ℕ → ℕ → Call
  gui_draw_text_impl : ℕ → ℕ → ℕ → ℕ → ℕ → Slice → Call

-- The methods that return a value of another kind, and the value's type.
pub data Query : Type 0 where
  current_pid current_ticks fill_system_info : Query

abbrev pub Reply : Query → Type 0
Reply current_pid = ℕ
Reply current_ticks = ℕ
Reply fill_system_info = SystemInfo

-- The methods that return nothing, and the dispatcher's own writes to the caller's memory.
pub data Action : Type 0 where
  trace : Syscall → Action
  trace_unknown sleep_until_tick : ℕ → Action
  write_console : Slice → Action
  write_system_info : Slice → SystemInfo → Action
  write_byte : Slice → ℕ → Action

-- The methods that do not return.
pub data Halt : Type 0 where
  exit exit_group : ℤ → Halt

pub data Prog : Type 0 where
  done : SyscallResult → Prog
  halt : Halt → Prog
  call : Call → (ℤ → Prog) → Prog
  ask : (q : Query) → (Reply q → Prog) → Prog
  act : Action → Prog → Prog

-- The casts `as u8` to `as u64` of an unsigned number.
abbrev pub u8 : ℕ → ℕ
u8 n = n % 2 ^ 8

abbrev pub u16 : ℕ → ℕ
u16 n = n % 2 ^ 16

abbrev pub u32 : ℕ → ℕ
u32 n = n % 2 ^ 32

-- The casts to a signed number, in two's complement.
abbrev pub i32 : ℕ → ℤ
i32 n = if ltb (u32 n) (2 ^ 31) then pos (u32 n) else negsuc (2 ^ 32 - 1 - u32 n)

abbrev pub i64 : ℕ → ℤ
i64 n = if ltb (n % 2 ^ 64) (2 ^ 63) then pos (n % 2 ^ 64) else negsuc (2 ^ 64 - 1 - n % 2 ^ 64)

-- `if r < 0 { SyscallResult::err(r) } else { SyscallResult::ok(r) }`
abbrev pub finish : ℤ → Prog
finish r = if ltb_ℤ r (pos 0) then done (err_result r) else done (ok_result r)

abbrev pub return_error : ℤ → Prog
return_error code = done (err_result code)

-- A call whose answer decides between success and failure.
abbrev pub forward : Call → Prog
forward c = call c finish

-- A call whose answer is a success whatever it is.
abbrev pub forward_ok : Call → Prog
forward_ok c = call c (λ r. done (ok_result r))

-- `if let Err(e) = validate_user_range(ptr, len) { return SyscallResult::err(e); }`
unfoldable pub checked : ℕ → ℕ → Prog → Prog
checked ptr len rest = elim (validate_user_range ptr len) [ ok ↦ rest | err e ↦ return_error e ]
