-- ===== src/Sys/Services/Checked.antt =====
-- The system calls on processes, the environment, messages and windows hand the kernel only slices
-- of user memory.
use oxide_os.Prelude.{ℕ, refl, ltb, ◌==◌, if◌then◌else◌, inl}
use oxide_os.Sys.Guard.{Memory}
use oxide_os.Sys.Call.{Plain, Call, SyscallRequest, slice, call, return_error, u8, forward}
use oxide_os.Sys.Call.Checked.{
  Checked, CheckedCall, CheckedAction, if-Checked, finish-Checked, forward-Checked, checked-Checked,
}
use oxide_os.Sys.Files.Checked.{with_path-Checked}
use oxide_os.Sys.Services.{
  with_pid, low, high, message_size, exec_path_len, sys_sleep, sys_get_system_info, sys_exec,
  sys_exec_args, sys_fork, sys_waitpid, sys_brk, sys_kill, sys_getenv, sys_setenv, sys_msgq_create,
  sys_msgsnd, sys_msgrcv, sys_msgq_destroy, sys_msgrcv_wait, sys_msgq_len, sys_gui_create,
  sys_gui_draw_text,
}

pub plain-Checked : (c : Plain) → Checked (forward (Call.plain c))
unfolding CheckedCall
plain-Checked c = forward-Checked (Call.plain c) tt

pub with_pid-Checked : (c : ℕ → Plain) → Checked (with_pid c)
unfolding Checked
with_pid-Checked c pid = plain-Checked (c pid)

pub sys_sleep-Checked : (ms : ℕ) → Checked (sys_sleep ms)
unfolding sys_sleep Checked CheckedAction
sys_sleep-Checked ms start = (tt, tt)

pub sys_get_system_info-Checked : (info_ptr : ℕ) → Checked (sys_get_system_info info_ptr)
unfolding sys_get_system_info Checked CheckedAction
sys_get_system_info-Checked a info = checked-Checked a 32 _ (λ h. (h, tt))

pub sys_exec-Checked : (m : Memory) (path_ptr arg2 : ℕ) → Checked (sys_exec m path_ptr arg2)
unfolding sys_exec Checked CheckedCall
sys_exec-Checked m a n =
    with_path-Checked a (exec_path_len m a n) (λ path. call (Call.exec_program path) return_error)
      (λ h. (h, λ r. tt))

pub sys_exec_args-Checked : (a n b k : ℕ) → Checked (sys_exec_args a n b k)
unfolding sys_exec_args Checked CheckedCall
sys_exec_args-Checked a n b k = checked-Checked a n _ (λ h.
    if-Checked (n == 0) _ _ (λ _. tt)
      (λ _.
        if-Checked (ltb 0 k) _ _ (λ _. checked-Checked b k _ (λ i. ((h, i), λ r. tt)))
          (λ _. ((h, inl refl), λ r. tt))))

pub sys_fork-Checked : Checked sys_fork
unfolding sys_fork
sys_fork-Checked = plain-Checked Plain.fork_child

pub sys_waitpid-Checked : (pid : ℕ) → Checked (sys_waitpid pid)
unfolding sys_waitpid
sys_waitpid-Checked pid = plain-Checked (Plain.waitpid_impl pid)

pub sys_brk-Checked : (new_end : ℕ) → Checked (sys_brk new_end)
unfolding sys_brk
sys_brk-Checked new_end = plain-Checked (Plain.brk_program new_end)

pub sys_kill-Checked : (pid signum : ℕ) → Checked (sys_kill pid signum)
unfolding sys_kill
sys_kill-Checked pid signum =
    plain-Checked (Plain.kill_pid_sig pid (u8 (if signum == 0 then 9 else signum)))

pub sys_getenv-Checked : (a n b k : ℕ) → Checked (sys_getenv a n b k)
unfolding sys_getenv CheckedCall
sys_getenv-Checked a n b k = checked-Checked a n _ (λ h.
    checked-Checked b k _ (λ i. forward-Checked (Call.getenv_impl (slice a n) (slice b k)) (h, i)))

pub sys_setenv-Checked : (a n b k : ℕ) → Checked (sys_setenv a n b k)
unfolding sys_setenv CheckedCall
sys_setenv-Checked a n b k = checked-Checked a n _ (λ h.
    if-Checked (ltb 0 k) _ _
      (λ _.
        checked-Checked b k _
          (λ i. forward-Checked (Call.setenv_impl (slice a n) (slice b k)) (h, i)))
      (λ _. forward-Checked (Call.setenv_impl (slice a n) (slice 0 0)) (h, inl refl)))

pub sys_msgq_create-Checked : (id : ℕ) → Checked (sys_msgq_create id)
unfolding sys_msgq_create
sys_msgq_create-Checked id = plain-Checked (Plain.msgq_create id)

pub sys_msgsnd-Checked : (id type_id a n : ℕ) → Checked (sys_msgsnd id type_id a n)
unfolding sys_msgsnd CheckedCall
sys_msgsnd-Checked id type_id a n =
    checked-Checked a n _ (λ h. forward-Checked (Call.msgsnd id type_id (slice a n)) h)

pub sys_msgrcv-Checked : (id a : ℕ) → Checked (sys_msgrcv id a)
unfolding sys_msgrcv CheckedCall
sys_msgrcv-Checked id a =
    checked-Checked a message_size _ (λ h. forward-Checked (Call.msgrcv id a) h)

pub sys_msgq_destroy-Checked : (id : ℕ) → Checked (sys_msgq_destroy id)
unfolding sys_msgq_destroy
sys_msgq_destroy-Checked id = plain-Checked (Plain.msgq_destroy id)

pub sys_msgrcv_wait-Checked : (id a : ℕ) → Checked (sys_msgrcv_wait id a)
unfolding sys_msgrcv_wait CheckedCall
sys_msgrcv_wait-Checked id a =
    checked-Checked a message_size _ (λ h. forward-Checked (Call.msgrcv_wait id a) h)

pub sys_msgq_len-Checked : (id : ℕ) → Checked (sys_msgq_len id)
unfolding sys_msgq_len
sys_msgq_len-Checked id = plain-Checked (Plain.msgq_len id)

pub sys_gui_create-Checked : (q : SyscallRequest) → Checked (sys_gui_create q)
unfolding sys_gui_create Checked CheckedCall
sys_gui_create-Checked q = checked-Checked q.arg1 q.arg2 _ (λ h pid.
    forward-Checked (Call.gui_create_impl pid (slice q.arg1 q.arg2) (low q.arg3) (high q.arg3)) h)

pub sys_gui_draw_text-Checked : (q : SyscallRequest) → Checked (sys_gui_draw_text q)
unfolding sys_gui_draw_text Checked CheckedCall
sys_gui_draw_text-Checked q = checked-Checked q.arg4 q.arg5 _ (λ h pid. (h, finish-Checked))
