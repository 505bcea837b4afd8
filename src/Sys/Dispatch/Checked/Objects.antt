-- ===== src/Sys/Dispatch/Checked/Objects.antt =====
-- The arms of `dispatch_objects` hand the kernel only slices of user memory.
use oxide_os.Sys.Number.{Syscall}
use oxide_os.Sys.Guard.{Memory}
use oxide_os.Sys.Call.{Plain, SyscallRequest, u32, i32}
use oxide_os.Sys.Call.Checked.{Checked, CheckedCall}
use oxide_os.Sys.Services.{low, high}
use oxide_os.Sys.Services.Checked.{
  plain-Checked, with_pid-Checked, sys_msgq_create-Checked, sys_msgsnd-Checked, sys_msgrcv-Checked,
  sys_msgq_destroy-Checked, sys_msgrcv_wait-Checked, sys_msgq_len-Checked, sys_gui_create-Checked,
  sys_gui_draw_text-Checked,
}
use oxide_os.Sys.Dispatch.Objects.{dispatch_objects}
use oxide_os.Sys.Dispatch.Checked.Compat.{dispatch_compat-Checked}

pub dispatch_objects-Checked :
    (m : Memory) (q : SyscallRequest) (s : Syscall) → Checked (dispatch_objects m q s)
unfolding dispatch_objects Checked CheckedCall
dispatch_objects-Checked m q Syscall.socket =
    plain-Checked (Plain.socket_impl (u32 q.arg1) (u32 q.arg2) (u32 q.arg3))
dispatch_objects-Checked m q Syscall.bind = plain-Checked (Plain.bind_impl q.arg1 q.arg2 q.arg3)
dispatch_objects-Checked m q Syscall.connect =
    plain-Checked (Plain.connect_impl q.arg1 q.arg2 q.arg3)
dispatch_objects-Checked m q Syscall.listen = plain-Checked (Plain.listen_impl q.arg1 (i32 q.arg2))
dispatch_objects-Checked m q Syscall.accept = plain-Checked (Plain.accept_impl q.arg1)
dispatch_objects-Checked m q Syscall.send =
    plain-Checked (Plain.send_impl q.arg1 q.arg2 q.arg3 (u32 q.arg4))
dispatch_objects-Checked m q Syscall.recv =
    plain-Checked (Plain.recv_impl q.arg1 q.arg2 q.arg3 (u32 q.arg4))
dispatch_objects-Checked m q Syscall.close_socket = plain-Checked (Plain.close_socket_impl q.arg1)
dispatch_objects-Checked m q Syscall.sendto =
    plain-Checked (Plain.sendto_impl q.arg1 q.arg2 q.arg3 (u32 q.arg4) q.arg5 16)
dispatch_objects-Checked m q Syscall.recvfrom =
    plain-Checked (Plain.recvfrom_impl q.arg1 q.arg2 q.arg3 (u32 q.arg4) q.arg5 0)
dispatch_objects-Checked m q Syscall.msgq_create = sys_msgq_create-Checked (u32 q.arg1)
dispatch_objects-Checked m q Syscall.msgsnd =
    sys_msgsnd-Checked (u32 q.arg1) (u32 q.arg2) q.arg3 q.arg4
dispatch_objects-Checked m q Syscall.msgrcv = sys_msgrcv-Checked (u32 q.arg1) q.arg2
dispatch_objects-Checked m q Syscall.msgq_destroy = sys_msgq_destroy-Checked (u32 q.arg1)
dispatch_objects-Checked m q Syscall.msgrcv_wait = sys_msgrcv_wait-Checked (u32 q.arg1) q.arg2
dispatch_objects-Checked m q Syscall.msgq_len = sys_msgq_len-Checked (u32 q.arg1)
dispatch_objects-Checked m q Syscall.shmget =
    plain-Checked (Plain.shmget_impl (u32 q.arg1) q.arg2 (u32 q.arg3))
dispatch_objects-Checked m q Syscall.shmat = plain-Checked (Plain.shmat_impl (u32 q.arg1) q.arg2)
dispatch_objects-Checked m q Syscall.shmdt = plain-Checked (Plain.shmdt_impl q.arg1)
dispatch_objects-Checked m q Syscall.gui_create = sys_gui_create-Checked q
dispatch_objects-Checked m q Syscall.gui_destroy =
    with_pid-Checked (λ pid. Plain.gui_destroy_impl pid (u32 q.arg1))
dispatch_objects-Checked m q Syscall.gui_fill_rect = with_pid-Checked (λ pid.
    Plain.gui_fill_rect_impl pid (u32 q.arg1) (low q.arg2) (high q.arg2) (low q.arg3) (high q.arg3)
      (u32 q.arg4))
dispatch_objects-Checked m q Syscall.gui_draw_text = sys_gui_draw_text-Checked q
dispatch_objects-Checked m q Syscall.gui_present =
    with_pid-Checked (λ pid. Plain.gui_present_impl pid (u32 q.arg1))
dispatch_objects-Checked m q Syscall.gui_poll_event =
    with_pid-Checked (λ pid. Plain.gui_poll_event_impl pid (u32 q.arg1) q.arg2)
dispatch_objects-Checked m q Syscall.gui_get_size =
    with_pid-Checked (λ pid. Plain.gui_get_size_impl pid (u32 q.arg1) q.arg2 q.arg3)
dispatch_objects-Checked m q Syscall.gui_blit_shm = with_pid-Checked (λ pid.
    Plain.gui_blit_shm_impl pid (u32 q.arg1) (u32 q.arg2) (low q.arg3) (high q.arg3) (low q.arg4)
      (high q.arg4) (low q.arg5) (high q.arg5))
dispatch_objects-Checked m q Syscall.install_query = plain-Checked Plain.install_query_impl
dispatch_objects-Checked m q Syscall.install_begin = plain-Checked Plain.install_begin_impl
dispatch_objects-Checked m q later = dispatch_compat-Checked m q later
