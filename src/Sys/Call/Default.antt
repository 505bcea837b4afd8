-- ===== src/Sys/Call/Default.antt =====
-- kernel/src/kernel/sys/syscall_core.rs: the bodies that the trait gives to the methods that a
-- runtime need not implement.
use oxide_os.Prelude.{ℤ, pos, neg, ◌≡◌, ◌≢◌}
use oxide_os.Sys.Guard.{enosys, eagain}
use oxide_os.Sys.Call.{Plain, Call}

-- A constant, the number of the calling process, the answer of another method, or no body.
pub data Default : Type 0 where
  answers : ℤ → Default
  answers_pid required : Default
  delegates : Call → Default

unfoldable pub default_plain : Plain → Default
default_plain (Plain.mmap_anon _ _) = answers enosys
default_plain (Plain.munmap_impl _ _) = answers (pos 0)
default_plain Plain.get_char = answers eagain
default_plain (Plain.fstat_impl _ _) = answers enosys
default_plain (Plain.poll_impl _ _ _) = answers enosys
default_plain (Plain.truncate_impl _ _) = answers enosys
default_plain (Plain.ioctl_impl _ _ _) = answers enosys
default_plain (Plain.sigaction_impl _ _ _) = answers enosys
default_plain Plain.sigreturn_impl = answers enosys
default_plain (Plain.socket_impl _ _ _) = answers enosys
default_plain (Plain.bind_impl _ _ _) = answers enosys
default_plain (Plain.connect_impl _ _ _) = answers enosys
default_plain (Plain.listen_impl _ _) = answers enosys
default_plain (Plain.accept_impl _) = answers enosys
default_plain (Plain.send_impl _ _ _ _) = answers enosys
default_plain (Plain.recv_impl _ _ _ _) = answers enosys
default_plain (Plain.close_socket_impl _) = answers enosys
default_plain (Plain.sendto_impl _ _ _ _ _ _) = answers enosys
default_plain (Plain.recvfrom_impl _ _ _ _ _ _) = answers enosys
default_plain (Plain.shmget_impl _ _ _) = answers enosys
default_plain (Plain.shmat_impl _ _) = answers enosys
default_plain (Plain.shmdt_impl _) = answers enosys
default_plain Plain.install_query_impl = answers (neg 1)
default_plain Plain.install_begin_impl = answers enosys
default_plain (Plain.mprotect_impl _ _ _) = answers (pos 0)
default_plain Plain.getppid_impl = answers (pos 0)
default_plain (Plain.uname_impl _) = answers enosys
default_plain Plain.set_tid_address_impl = answers_pid
default_plain (Plain.arch_prctl_impl _ _) = answers (neg 22)
default_plain (Plain.clock_gettime_impl _ _) = answers enosys
default_plain (Plain.fcntl_impl _ _ _) = answers (pos 0)
default_plain (Plain.lseek_impl _ _ _) = answers (neg 29)
default_plain (Plain.sigprocmask_impl _ _ _) = answers (pos 0)
default_plain (Plain.readv_impl _ _ _) = answers enosys
default_plain (Plain.mremap_impl _ _ _) = answers (neg 12)
default_plain Plain.getuid_impl = answers (pos 1000)
default_plain Plain.getgid_impl = answers (pos 1000)
default_plain (Plain.setuid_impl _) = answers (pos 0)
default_plain Plain.gettid_impl = answers_pid
default_plain (Plain.futex_impl _ _ _) = answers (pos 0)
default_plain (Plain.writev_impl _ _ _) = answers enosys
default_plain Plain.sched_yield_impl = answers (pos 0)
default_plain (Plain.msync_impl _ _ _) = answers (pos 0)
default_plain (Plain.mincore_impl _ _ _) = answers (neg 12)
default_plain (Plain.madvise_impl _ _ _) = answers (pos 0)
default_plain (Plain.dup_impl _) = answers enosys
default_plain Plain.vfork_impl = delegates (Call.plain Plain.fork_child)
default_plain (Plain.flock_impl _ _) = answers (pos 0)
default_plain (Plain.fsync_impl _) = answers (pos 0)
default_plain (Plain.fdatasync_impl _) = answers (pos 0)
default_plain Plain.sync_impl = answers (pos 0)
default_plain (Plain.ftruncate_impl _ _) = answers enosys
default_plain (Plain.fchdir_impl _) = answers enosys
default_plain (Plain.fchmod_impl _ _) = answers (pos 0)
default_plain (Plain.fchown_impl _ _ _) = answers (pos 0)
default_plain (Plain.umask_impl _) = answers (pos 18)
default_plain (Plain.getrlimit_impl _ _) = answers enosys
default_plain (Plain.getrusage_impl _ _) = answers enosys
default_plain (Plain.sysinfo_impl _) = answers enosys
default_plain (Plain.times_impl _) = answers (pos 0)
default_plain (Plain.syslog_impl _ _ _) = answers (pos 0)
default_plain (Plain.setpgid_impl _ _) = answers (pos 0)
default_plain Plain.getpgrp_impl = answers_pid
default_plain Plain.setsid_impl = answers_pid
default_plain (Plain.setreuid_impl _ _) = answers (pos 0)
default_plain (Plain.setregid_impl _ _) = answers (pos 0)
default_plain (Plain.getgroups_impl _ _) = answers (pos 0)
default_plain (Plain.setresuid_impl _ _ _) = answers (pos 0)
default_plain (Plain.setresgid_impl _ _ _) = answers (pos 0)
default_plain (Plain.getresuid_impl _ _ _) = answers (pos 0)
default_plain (Plain.getresgid_impl _ _ _) = answers (pos 0)
default_plain (Plain.getpgid_impl _) = answers (pos 1)
default_plain (Plain.select_impl _ _ _ _ _) = required
default_plain (Plain.pselect6_impl a b c d e) = delegates (Call.plain (Plain.select_impl a b c d e))
default_plain (Plain.pread64_impl _ _ _ _) = answers enosys
default_plain (Plain.pwrite64_impl _ _ _ _) = answers enosys
default_plain (Plain.sendfile_impl _ _ _ _) = answers enosys
default_plain (Plain.alarm_impl _) = answers (pos 0)
default_plain Plain.pause_impl = answers (neg 4)
default_plain (Plain.sigpending_impl _ _) = answers (pos 0)
default_plain (Plain.sigsuspend_impl _ _) = answers (neg 4)
default_plain (Plain.prlimit64_impl _ _ _ _) = answers (pos 0)
default_plain Plain.fork_child = answers enosys
default_plain (Plain.waitpid_impl _) = answers enosys
default_plain (Plain.brk_program _) = answers enosys
default_plain (Plain.fs_close _) = answers enosys
default_plain (Plain.dup2_impl _ _) = answers enosys
default_plain (Plain.kill_pid_sig _ _) = answers enosys
default_plain (Plain.msgq_create _) = answers enosys
default_plain (Plain.msgq_destroy _) = answers enosys
default_plain (Plain.msgq_len _) = answers enosys
default_plain (Plain.gui_destroy_impl _ _) = answers enosys
default_plain (Plain.gui_fill_rect_impl _ _ _ _ _ _ _) = answers enosys
default_plain (Plain.gui_present_impl _ _) = answers enosys
default_plain (Plain.gui_poll_event_impl _ _ _) = answers enosys
default_plain (Plain.gui_get_size_impl _ _ _ _) = answers enosys
default_plain (Plain.gui_blit_shm_impl _ _ _ _ _ _ _ _ _) = answers enosys

unfoldable pub default_call : Call → Default
unfolding default_plain
default_call (Call.plain c) = default_plain c
default_call (Call.exec_program _) = answers enosys
default_call (Call.exec_program_args path _) = delegates (Call.exec_program path)
default_call (Call.getdents64_impl _ _) = answers enosys
default_call (Call.readdir_impl _ _) = answers enosys
default_call (Call.mkdir_impl _) = answers enosys
default_call (Call.chdir_impl _) = answers enosys
default_call (Call.getcwd_impl _) = answers enosys
default_call (Call.stat_impl _ _) = answers enosys
default_call (Call.lstat_impl path buf) = delegates (Call.stat_impl path buf)
default_call (Call.unlink_impl _) = answers enosys
default_call (Call.rename_impl _ _) = answers enosys
default_call (Call.getenv_impl _ _) = answers enosys
default_call (Call.setenv_impl _ _) = answers enosys
default_call (Call.chmod_impl _ _) = answers enosys
default_call (Call.chown_impl _ _ _) = answers enosys
default_call (Call.fs_open _ _) = answers enosys
default_call (Call.fs_read _ _) = answers enosys
default_call (Call.fs_write_file _ _) = answers enosys
default_call (Call.pipe_alloc _ _) = answers enosys
default_call (Call.pipe2_impl r w _) = delegates (Call.pipe_alloc r w)
default_call (Call.msgsnd _ _ _) = answers enosys
default_call (Call.msgrcv _ _) = answers enosys
default_call (Call.msgrcv_wait _ _) = answers enosys
default_call (Call.gui_create_impl _ _ _ _) = answers enosys
default_call (Call.gui_draw_text_impl _ _ _ _ _ _) = answers enosys
default_call (Call.access_impl _ _) = answers enosys
default_call (Call.rmdir_impl _) = answers enosys
default_call (Call.creat_impl path _) = delegates (Call.fs_open path 0x241)
default_call (Call.readlink_impl _ _ _) = answers (neg 22)
default_call (Call.lchown_impl _ _ _) = answers (pos 0)
default_call (Call.dns_resolve_impl _) = answers enosys

-- A body that calls another method calls one that does not: no default runs for ever.
plain_once : (p : Plain) (c d : Call) → default_plain p ≡ delegates c → default_call c ≢ delegates d
unfolding default_plain default_call
plain_once Plain.vfork_impl c d e f = cc
plain_once (Plain.pselect6_impl _ _ _ _ _) c d e f = cc
plain_once _ c d e f = cc

pub delegates_once : (b c d : Call) → default_call b ≡ delegates c → default_call c ≢ delegates d
unfolding default_call
delegates_once (Call.plain p) c d e f = plain_once p c d e f
delegates_once _ c d e f = cc
