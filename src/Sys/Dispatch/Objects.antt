-- ===== src/Sys/Dispatch/Objects.antt =====
-- kernel/src/kernel/sys/syscall_core.rs: the arms of `dispatch` for sockets, messages, shared memory and windows.
use oxide_os.Sys.Number.{Syscall}
use oxide_os.Sys.Guard.{Memory}
use oxide_os.Sys.Call.{Plain, Call, Prog, SyscallRequest, u32, i32, forward}
use oxide_os.Sys.Services.{
  low, high, with_pid, sys_msgq_create, sys_msgsnd, sys_msgrcv, sys_msgq_destroy, sys_msgrcv_wait,
  sys_msgq_len, sys_gui_create, sys_gui_draw_text,
}
use oxide_os.Sys.Dispatch.Compat.{dispatch_compat}

-- The arms that come later are the next function's.
unfoldable pub dispatch_objects : Memory → SyscallRequest → Syscall → Prog
dispatch_objects m q Syscall.socket =
    forward (Call.plain (Plain.socket_impl (u32 q.arg1) (u32 q.arg2) (u32 q.arg3)))
dispatch_objects m q Syscall.bind = forward (Call.plain (Plain.bind_impl q.arg1 q.arg2 q.arg3))
dispatch_objects m q Syscall.connect =
    forward (Call.plain (Plain.connect_impl q.arg1 q.arg2 q.arg3))
dispatch_objects m q Syscall.listen = forward (Call.plain (Plain.listen_impl q.arg1 (i32 q.arg2)))
dispatch_objects m q Syscall.accept = forward (Call.plain (Plain.accept_impl q.arg1))
dispatch_objects m q Syscall.send =
    forward (Call.plain (Plain.send_impl q.arg1 q.arg2 q.arg3 (u32 q.arg4)))
dispatch_objects m q Syscall.recv =
    forward (Call.plain (Plain.recv_impl q.arg1 q.arg2 q.arg3 (u32 q.arg4)))
dispatch_objects m q Syscall.close_socket = forward (Call.plain (Plain.close_socket_impl q.arg1))
dispatch_objects m q Syscall.sendto =
    forward (Call.plain (Plain.sendto_impl q.arg1 q.arg2 q.arg3 (u32 q.arg4) q.arg5 16))
dispatch_objects m q Syscall.recvfrom =
    forward (Call.plain (Plain.recvfrom_impl q.arg1 q.arg2 q.arg3 (u32 q.arg4) q.arg5 0))
dispatch_objects m q Syscall.msgq_create = sys_msgq_create (u32 q.arg1)
dispatch_objects m q Syscall.msgsnd = sys_msgsnd (u32 q.arg1) (u32 q.arg2) q.arg3 q.arg4
dispatch_objects m q Syscall.msgrcv = sys_msgrcv (u32 q.arg1) q.arg2
dispatch_objects m q Syscall.msgq_destroy = sys_msgq_destroy (u32 q.arg1)
dispatch_objects m q Syscall.msgrcv_wait = sys_msgrcv_wait (u32 q.arg1) q.arg2
dispatch_objects m q Syscall.msgq_len = sys_msgq_len (u32 q.arg1)
dispatch_objects m q Syscall.shmget =
    forward (Call.plain (Plain.shmget_impl (u32 q.arg1) q.arg2 (u32 q.arg3)))
dispatch_objects m q Syscall.shmat = forward (Call.plain (Plain.shmat_impl (u32 q.arg1) q.arg2))
dispatch_objects m q Syscall.shmdt = forward (Call.plain (Plain.shmdt_impl q.arg1))
dispatch_objects m q Syscall.gui_create = sys_gui_create q
dispatch_objects m q Syscall.gui_destroy = with_pid (λ pid. Plain.gui_destroy_impl pid (u32 q.arg1))
dispatch_objects m q Syscall.gui_fill_rect = with_pid (λ pid.
    Plain.gui_fill_rect_impl pid (u32 q.arg1) (low q.arg2) (high q.arg2) (low q.arg3) (high q.arg3)
      (u32 q.arg4))
dispatch_objects m q Syscall.gui_draw_text = sys_gui_draw_text q
dispatch_objects m q Syscall.gui_present = with_pid (λ pid. Plain.gui_present_impl pid (u32 q.arg1))
dispatch_objects m q Syscall.gui_poll_event =
    with_pid (λ pid. Plain.gui_poll_event_impl pid (u32 q.arg1) q.arg2)
dispatch_objects m q Syscall.gui_get_size =
    with_pid (λ pid. Plain.gui_get_size_impl pid (u32 q.arg1) q.arg2 q.arg3)
dispatch_objects m q Syscall.gui_blit_shm = with_pid (λ pid.
    Plain.gui_blit_shm_impl pid (u32 q.arg1) (u32 q.arg2) (low q.arg3) (high q.arg3) (low q.arg4)
      (high q.arg4) (low q.arg5) (high q.arg5))
dispatch_objects m q Syscall.install_query = forward (Call.plain Plain.install_query_impl)
dispatch_objects m q Syscall.install_begin = forward (Call.plain Plain.install_begin_impl)
dispatch_objects m q later = dispatch_compat m q later
