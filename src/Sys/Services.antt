-- ===== src/Sys/Services.antt =====
-- kernel/src/kernel/sys/syscall_core.rs: the system calls on processes, the environment, messages
-- and windows.
pub mod Checked
use oxide_os.Prelude.{
  ℕ, ◌+◌, ◌-◌, ◌*◌, ◌/◌, ◌%◌, ◌^◌, min, Bool, true, false, ◌||◌, ltb, leb, ◌==◌, if◌then◌else◌, ℤ,
  pos,
}
use oxide_os.Sys.Guard.{Memory, einval, strnlen_user, Check, ok, err, validate_user_range}
use oxide_os.Sys.Call.{
  Plain, Call, Query, Action, Prog, Slice, slice, done, call, ask, act, ok_result, u8, u32,
  SyscallRequest, finish, return_error, forward, checked,
}
use oxide_os.Sys.Files.{is_address, with_path}

abbrev pub timer_hz : ℕ
timer_hz = 100

-- `saturating_add` and `saturating_mul` on a `u64`
abbrev pub saturate : ℕ → ℕ
saturate n = min (2 ^ 64 - 1) n

unfoldable pub sys_sleep : ℕ → Prog
sys_sleep ms = ask Query.current_ticks (λ start.
    act (Action.sleep_until_tick (saturate (start + saturate (ms * timer_hz) / 1000)))
      (done (ok_result (pos 0))))

-- `size_of::<SystemInfo>()`: three `u64`, a `u32` and its padding.
unfoldable pub sys_get_system_info : ℕ → Prog
unfolding checked
sys_get_system_info info_ptr = ask Query.fill_system_info (λ info.
    checked info_ptr 32
      (act (Action.write_system_info (slice info_ptr 32) info) (done (ok_result (pos 0)))))

-- The length of the path of `exec`: of the string when `arg2` is an address or zero, else `arg2`.
unfoldable pub exec_path_len : Memory → ℕ → ℕ → ℕ
unfolding strnlen_user
exec_path_len m path_ptr arg2 =
    if is_address arg2
    then strnlen_user m path_ptr 4096
    else if arg2 == 0
    then strnlen_user m path_ptr 4096
    else arg2

unfoldable pub sys_exec : Memory → ℕ → ℕ → Prog
unfolding exec_path_len checked
sys_exec m path_ptr arg2 =
    with_path path_ptr (exec_path_len m path_ptr arg2)
      (λ path. call (Call.exec_program path) return_error)

unfoldable pub sys_exec_args : ℕ → ℕ → ℕ → ℕ → Prog
unfolding checked
sys_exec_args path_ptr path_len args_ptr args_len = checked path_ptr path_len (
    if path_len == 0
    then return_error einval
    else if ltb 0 args_len
    then checked args_ptr args_len (
        call (Call.exec_program_args (slice path_ptr path_len) (slice args_ptr args_len))
          return_error)
    else call (Call.exec_program_args (slice path_ptr path_len) (slice 0 0)) return_error)

unfoldable pub sys_fork : Prog
sys_fork = forward (Call.plain Plain.fork_child)

unfoldable pub sys_waitpid : ℕ → Prog
sys_waitpid pid = forward (Call.plain (Plain.waitpid_impl pid))

unfoldable pub sys_brk : ℕ → Prog
sys_brk new_end = forward (Call.plain (Plain.brk_program new_end))

unfoldable pub sys_kill : ℕ → ℕ → Prog
sys_kill pid signum =
    forward (Call.plain (Plain.kill_pid_sig pid (u8 (if signum == 0 then 9 else signum))))

unfoldable pub sys_getenv : ℕ → ℕ → ℕ → ℕ → Prog
unfolding checked
sys_getenv key_ptr key_len buf_ptr buf_len = checked key_ptr key_len (
    checked buf_ptr buf_len
      (forward (Call.getenv_impl (slice key_ptr key_len) (slice buf_ptr buf_len))))

unfoldable pub sys_setenv : ℕ → ℕ → ℕ → ℕ → Prog
unfolding checked
sys_setenv key_ptr key_len val_ptr val_len = checked key_ptr key_len (
    if ltb 0 val_len
    then checked val_ptr val_len
        (forward (Call.setenv_impl (slice key_ptr key_len) (slice val_ptr val_len)))
    else forward (Call.setenv_impl (slice key_ptr key_len) (slice 0 0)))

unfoldable pub sys_msgq_create : ℕ → Prog
sys_msgq_create id = forward (Call.plain (Plain.msgq_create id))

unfoldable pub sys_msgsnd : ℕ → ℕ → ℕ → ℕ → Prog
unfolding checked
sys_msgsnd id type_id data_ptr data_len =
    checked data_ptr data_len (forward (Call.msgsnd id type_id (slice data_ptr data_len)))

-- `size_of::<Message>()`: two `u32` and 256 bytes.
abbrev pub message_size : ℕ
message_size = 264

unfoldable pub sys_msgrcv : ℕ → ℕ → Prog
unfolding checked
sys_msgrcv id msg_out_ptr = checked msg_out_ptr message_size (forward (Call.msgrcv id msg_out_ptr))

unfoldable pub sys_msgq_destroy : ℕ → Prog
sys_msgq_destroy id = forward (Call.plain (Plain.msgq_destroy id))

unfoldable pub sys_msgrcv_wait : ℕ → ℕ → Prog
unfolding checked
sys_msgrcv_wait id msg_out_ptr =
    checked msg_out_ptr message_size (forward (Call.msgrcv_wait id msg_out_ptr))

unfoldable pub sys_msgq_len : ℕ → Prog
sys_msgq_len id = forward (Call.plain (Plain.msgq_len id))

-- `(arg & 0xFFFF_FFFF) as u32` and `((arg >> 32) & 0xFFFF_FFFF) as u32`
abbrev pub low : ℕ → ℕ
low arg = arg % 2 ^ 32

abbrev pub high : ℕ → ℕ
high arg = arg / 2 ^ 32 % 2 ^ 32

unfoldable pub sys_gui_create : SyscallRequest → Prog
unfolding checked
sys_gui_create q = checked q.arg1 q.arg2 (
    ask Query.current_pid
      (λ pid. forward (Call.gui_create_impl pid (slice q.arg1 q.arg2) (low q.arg3) (high q.arg3))))

-- The positions are cut to 16 bits.
unfoldable pub sys_gui_draw_text : SyscallRequest → Prog
unfolding checked
sys_gui_draw_text q = checked q.arg4 q.arg5 (
    ask Query.current_pid (λ pid. forward (
      Call.gui_draw_text_impl pid (u32 q.arg1) (q.arg2 % 2 ^ 16) (q.arg2 / 2 ^ 32 % 2 ^ 16)
        (u32 q.arg3) (slice q.arg4 q.arg5))))

-- A call that also passes the number of the calling process.
abbrev pub with_pid : (ℕ → Plain) → Prog
with_pid c = ask Query.current_pid (λ pid. forward (Call.plain (c pid)))
