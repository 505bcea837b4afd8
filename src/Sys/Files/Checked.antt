-- ===== src/Sys/Files/Checked.antt =====
-- The system calls on files hand the kernel only slices of user memory.
use oxide_os.Prelude.{ℕ, false, not, ◌||◌, ◌≡◌, ◌==◌, ℤ, pos, ltb_ℤ, leb_ℤ, arith}
use oxide_os.Sys.Guard.{Memory, einval, ebadf, InUser, strnlen_user}
use oxide_os.Sys.Call.{Plain, Call, Prog, Slice, slice, u32, return_error, forward, checked}
use oxide_os.Sys.Call.Checked.{
  Checked, CheckedCall, CheckedAction, if-Checked, finish-Checked, forward-Checked, checked-Checked,
}
use oxide_os.Sys.Files.{
  ne_ℤ, fs_ebadf, with_path, stat_args, sys_open, sys_close, sys_read, sys_write, sys_print,
  sys_pipe, sys_readdir, sys_mkdir, sys_chdir, sys_getcwd, sys_stat, sys_dup2,
}

pub with_path-Checked :
    (ptr len : ℕ) (rest : Slice → Prog)
    → (InUser ptr len → Checked (rest (slice ptr len)))
    → Checked (with_path ptr len rest)
unfolding Checked
with_path-Checked ptr len rest h =
    if-Checked (len == 0) (return_error einval) (checked ptr len (rest (slice ptr len))) (λ _. tt)
      (λ _. checked-Checked ptr len (rest (slice ptr len)) h)

-- One byte of a range that is not empty.
first_byte : (ptr len : ℕ) → (len == 0) ≡ false → InUser ptr len → InUser ptr 1
first_byte ptr len ne h = ground (arith, ne, h)

pub sys_open-Checked : (m : Memory) (path_ptr flags : ℕ) → Checked (sys_open m path_ptr flags)
unfolding sys_open CheckedCall
sys_open-Checked m path_ptr flags =
    with_path-Checked path_ptr (strnlen_user m path_ptr 4096)
      (λ path. forward (Call.fs_open path (u32 flags)))
      (λ h.
        forward-Checked (Call.fs_open (slice path_ptr (strnlen_user m path_ptr 4096)) (u32 flags))
          h)

pub sys_close-Checked : (fd : ℤ) → Checked (sys_close fd)
unfolding sys_close CheckedCall
sys_close-Checked fd = forward-Checked (Call.plain (Plain.fs_close fd)) tt

pub sys_read-Checked : (fd : ℤ) (buf_ptr count : ℕ) → Checked (sys_read fd buf_ptr count)
unfolding sys_read Checked CheckedCall CheckedAction
sys_read-Checked fd buf_ptr count =
    if-Checked (count == 0) _ _ (λ _. tt)
      (λ ne. checked-Checked buf_ptr count _ (λ h.
        if-Checked (not (ne_ℤ fd (pos 0))) _ _
          (λ _. (
            h,
            λ r.
                if-Checked (ne_ℤ r ebadf) _ _ (λ _. finish-Checked r)
                  (λ _. (
                    tt,
                    λ c.
                        if-Checked (ltb_ℤ c (pos 0)) _ _ (λ _. tt)
                          (λ _. (first_byte buf_ptr count ne h, tt)),
                  )),
          ))
          (λ _. forward-Checked (Call.fs_read fd (slice buf_ptr count)) h)))

pub sys_write-Checked : (fd : ℤ) (buf_ptr count : ℕ) → Checked (sys_write fd buf_ptr count)
unfolding sys_write Checked CheckedCall CheckedAction
sys_write-Checked fd buf_ptr count =
    if-Checked (ltb_ℤ fd (pos 0)) _ _ (λ _. tt)
      (λ _. checked-Checked buf_ptr count _ (λ h.
        if-Checked (not (ne_ℤ fd (pos 1)) || not (ne_ℤ fd (pos 2))) _ _
          (λ _. (h, λ r. if-Checked (ne_ℤ r fs_ebadf) _ _ (λ _. finish-Checked r) (λ _. (h, tt))))
          (λ _.
            if-Checked (leb_ℤ (pos 3) fd) _ _
              (λ _. forward-Checked (Call.fs_write_file fd (slice buf_ptr count)) h) (λ _. tt))))

pub sys_print-Checked : (msg_ptr len : ℕ) → Checked (sys_print msg_ptr len)
unfolding sys_print Checked CheckedAction
sys_print-Checked msg_ptr len = checked-Checked msg_ptr len _ (λ h. (h, tt))

pub sys_pipe-Checked : (read_fd_ptr write_fd_ptr : ℕ) → Checked (sys_pipe read_fd_ptr write_fd_ptr)
unfolding sys_pipe CheckedCall
sys_pipe-Checked a b =
    checked-Checked a 4 _
      (λ h. checked-Checked b 4 _ (λ k. forward-Checked (Call.pipe_alloc a b) (h, k)))

pub sys_readdir-Checked : (a n b k : ℕ) → Checked (sys_readdir a n b k)
unfolding sys_readdir CheckedCall
sys_readdir-Checked a n b k = checked-Checked a n _ (λ h.
    checked-Checked b k _ (λ i. forward-Checked (Call.readdir_impl (slice a n) (slice b k)) (h, i)))

pub sys_mkdir-Checked : (path_ptr path_len : ℕ) → Checked (sys_mkdir path_ptr path_len)
unfolding sys_mkdir CheckedCall
sys_mkdir-Checked a n = checked-Checked a n _ (λ h. forward-Checked (Call.mkdir_impl (slice a n)) h)

pub sys_chdir-Checked : (m : Memory) (path_ptr : ℕ) → Checked (sys_chdir m path_ptr)
unfolding sys_chdir CheckedCall
sys_chdir-Checked m a =
    with_path-Checked a (strnlen_user m a 4096) (λ path. forward (Call.chdir_impl path))
      (λ h. forward-Checked (Call.chdir_impl (slice a (strnlen_user m a 4096))) h)

pub sys_getcwd-Checked : (buf_ptr buf_len : ℕ) → Checked (sys_getcwd buf_ptr buf_len)
unfolding sys_getcwd CheckedCall
sys_getcwd-Checked a n =
    checked-Checked a n _ (λ h. forward-Checked (Call.getcwd_impl (slice a n)) h)

-- A path, and a buffer for the status of a file.
pub status-Checked :
    (ptr len buf : ℕ) (c : Slice → ℕ → Call)
    → (InUser ptr len → InUser buf 144 → CheckedCall (c (slice ptr len) buf))
    → Checked (with_path ptr len (λ path. checked buf 144 (forward (c path buf))))
status-Checked ptr len buf c inside =
    with_path-Checked ptr len (λ path. checked buf 144 (forward (c path buf)))
      (λ h. checked-Checked buf 144 _ (λ k. forward-Checked (c (slice ptr len) buf) (inside h k)))

pub sys_stat-Checked :
    (m : Memory) (path_ptr arg2 arg3 : ℕ) → Checked (sys_stat m path_ptr arg2 arg3)
unfolding sys_stat CheckedCall
sys_stat-Checked m path_ptr arg2 arg3 =
    status-Checked path_ptr (stat_args m path_ptr arg2 arg3).0 (stat_args m path_ptr arg2 arg3).1
      Call.stat_impl (λ h k. (h, k))

pub sys_dup2-Checked : (old_fd new_fd : ℤ) → Checked (sys_dup2 old_fd new_fd)
unfolding sys_dup2 CheckedCall
sys_dup2-Checked a b = forward-Checked (Call.plain (Plain.dup2_impl a b)) tt
