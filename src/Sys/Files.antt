-- ===== src/Sys/Files.antt =====
-- kernel/src/kernel/sys/syscall_core.rs: the system calls on files, directories and the console.
pub mod Checked
use oxide_os.Prelude.{
  ℕ, ◌+◌, ◌*◌, ◌/◌, min, Bool, true, false, not, ◌||◌, ltb, leb, ◌==◌, if◌then◌else◌, ℤ, pos, neg,
  ltb_ℤ, leb_ℤ, to_usize,
}
use oxide_os.Sys.Guard.{Memory, einval, ebadf, strnlen_user}
use oxide_os.Sys.Call.{
  Plain, Call, Query, Action, Prog, Slice, slice, done, call, ask, act, ok_result, err_result, u8,
  u32, i64, finish, return_error, forward, checked,
}

-- `r != code`
abbrev pub ne_ℤ : ℤ → ℤ → Bool
ne_ℤ a b = ltb_ℤ a b || ltb_ℤ b a

-- What the calls that take a string end with: a length of zero is an error, and else the string
-- must lie in the caller's memory.
abbrev pub with_path : ℕ → ℕ → (Slice → Prog) → Prog
with_path ptr len rest =
    if len == 0 then return_error einval else checked ptr len (rest (slice ptr len))

unfoldable pub sys_open : Memory → ℕ → ℕ → Prog
unfolding strnlen_user
sys_open m path_ptr flags =
    with_path path_ptr (strnlen_user m path_ptr 4096)
      (λ path. forward (Call.fs_open path (u32 flags)))

unfoldable pub sys_close : ℤ → Prog
sys_close fd = forward (Call.plain (Plain.fs_close fd))

-- What a read of descriptor 0 does with the answer of the table: the keyboard ring is asked when the
-- table has no entry.
abbrev pub stdin_reply : ℕ → ℤ → Prog
stdin_reply buf_ptr r =
    if ne_ℤ r ebadf
    then finish r
    else call (Call.plain Plain.get_char) (λ c.
      if ltb_ℤ c (pos 0)
      then return_error c
      else act (Action.write_byte (slice buf_ptr 1) (u8 (to_usize c))) (done (ok_result (pos 1))))

unfoldable pub sys_read : ℤ → ℕ → ℕ → Prog
unfolding checked
sys_read fd buf_ptr count =
    if count == 0
    then done (ok_result (pos 0))
    else checked buf_ptr count (
        if not (ne_ℤ fd (pos 0))
        then call (Call.fs_read fd (slice buf_ptr count)) (stdin_reply buf_ptr)
        else forward (Call.fs_read fd (slice buf_ptr count)))

-- `crate::kernel::fs::EBADF`
abbrev pub fs_ebadf : ℤ
fs_ebadf = neg 9

-- What a write to descriptor 1 or 2 does with the answer of the table: the bytes go to the console
-- when the table has no entry.
abbrev pub stdout_reply : ℕ → ℕ → ℤ → Prog
stdout_reply buf_ptr count r =
    if ne_ℤ r fs_ebadf
    then finish r
    else act (Action.write_console (slice buf_ptr count)) (done (ok_result (i64 count)))

unfoldable pub sys_write : ℤ → ℕ → ℕ → Prog
unfolding checked
sys_write fd buf_ptr count =
    if ltb_ℤ fd (pos 0)
    then return_error ebadf
    else checked buf_ptr count (
        if not (ne_ℤ fd (pos 1)) || not (ne_ℤ fd (pos 2))
        then call (Call.fs_write_file fd (slice buf_ptr count)) (stdout_reply buf_ptr count)
        else if leb_ℤ (pos 3) fd
        then forward (Call.fs_write_file fd (slice buf_ptr count))
        else return_error ebadf)

unfoldable pub sys_print : ℕ → ℕ → Prog
unfolding checked
sys_print msg_ptr len =
    checked msg_ptr len
      (act (Action.write_console (slice msg_ptr len)) (done (ok_result (i64 len))))

unfoldable pub sys_pipe : ℕ → ℕ → Prog
unfolding checked
sys_pipe read_fd_ptr write_fd_ptr =
    checked read_fd_ptr 4
      (checked write_fd_ptr 4 (forward (Call.pipe_alloc read_fd_ptr write_fd_ptr)))

unfoldable pub sys_readdir : ℕ → ℕ → ℕ → ℕ → Prog
unfolding checked
sys_readdir path_ptr path_len buf_ptr buf_len = checked path_ptr path_len (
    checked buf_ptr buf_len
      (forward (Call.readdir_impl (slice path_ptr path_len) (slice buf_ptr buf_len))))

unfoldable pub sys_mkdir : ℕ → ℕ → Prog
unfolding checked
sys_mkdir path_ptr path_len =
    checked path_ptr path_len (forward (Call.mkdir_impl (slice path_ptr path_len)))

unfoldable pub sys_chdir : Memory → ℕ → Prog
unfolding checked strnlen_user
sys_chdir m path_ptr =
    with_path path_ptr (strnlen_user m path_ptr 4096) (λ path. forward (Call.chdir_impl path))

unfoldable pub sys_getcwd : ℕ → ℕ → Prog
unfolding checked
sys_getcwd buf_ptr buf_len =
    checked buf_ptr buf_len (forward (Call.getcwd_impl (slice buf_ptr buf_len)))

-- The first address that is not taken for a length: `stat` and its kin have two conventions.
abbrev pub is_address : ℕ → Bool
is_address arg = leb 4096 arg

-- The length of the path and the address of the buffer, in either convention.
unfoldable pub stat_args : Memory → ℕ → ℕ → ℕ → ℕ × ℕ
unfolding strnlen_user
stat_args m path_ptr arg2 arg3 =
    if is_address arg2 then (strnlen_user m path_ptr 4096, arg2) else (arg2, arg3)

unfoldable pub sys_stat : Memory → ℕ → ℕ → ℕ → Prog
unfolding checked stat_args
sys_stat m path_ptr arg2 arg3 =
    let (path_len, stat_buf) = stat_args m path_ptr arg2 arg3 in
    with_path path_ptr path_len
      (λ path. checked stat_buf 144 (forward (Call.stat_impl path stat_buf)))

unfoldable pub sys_dup2 : ℤ → ℤ → Prog
sys_dup2 old_fd new_fd = forward (Call.plain (Plain.dup2_impl old_fd new_fd))
