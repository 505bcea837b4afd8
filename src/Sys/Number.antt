-- ===== src/Sys/Number.antt =====
-- kernel/src/kernel/sys/syscall_core.rs: the system calls and their numbers. `Open` is `open_file`
-- here.
pub mod Table
mod Tests
use oxide_os.Prelude.{ℕ, ◌-◌, ◌^◌, Bool, Option, none, some, List, [], ◌∷◌, ◌==◌, if◌then◌else◌}

pub data Syscall : Type 0 where
  read write open_file close stat fstat pread64 pwrite64 writev access : Syscall
  sched_yield msync mincore madvise shmctl dup pause getitimer alarm setitimer : Syscall
  sendfile vfork flock fsync fdatasync sync ftruncate fchdir rmdir creat : Syscall
  readlink fchmod fchown lchown umask getrlimit getrusage sysinfo times syslog : Syscall
  setpgid getpgrp setsid setreuid setregid getgroups setresuid getresuid : Syscall
  setresgid getresgid getpgid prlimit64 select poll pselect6 mmap munmap brk : Syscall
  sigaction sigreturn ioctl pipe dup2 sleep get_pid socket connect accept sendto : Syscall
  recvfrom bind listen fork exec exit wait kill uname fcntl truncate read_dir : Syscall
  getcwd chdir rename mkdir unlink chmod chown lseek lstat readv mremap : Syscall
  sigprocmask sig_pending sig_suspend get_time mprotect getppid getuid getgid : Syscall
  setuid setgid geteuid getegid gettid futex arch_prctl set_tid_address : Syscall
  clock_gettime exit_group openat pipe2 shmget shmat shmdt print get_char : Syscall
  get_system_info getenv setenv exec_args send recv close_socket msgq_create : Syscall
  msgsnd msgrcv msgq_destroy msgrcv_wait msgq_len gui_create gui_destroy : Syscall
  gui_fill_rect gui_draw_text gui_present gui_poll_event gui_get_size : Syscall
  gui_blit_shm install_query install_begin dns_resolve invalid : Syscall

-- The discriminants of the enum.
unfoldable pub number : Syscall → ℕ
number read = 0
number write = 1
number open_file = 2
number close = 3
number stat = 4
number fstat = 5
number pread64 = 17
number pwrite64 = 18
number writev = 20
number access = 21
number sched_yield = 24
number msync = 26
number mincore = 27
number madvise = 28
number shmctl = 31
number dup = 32
number pause = 34
number getitimer = 36
number alarm = 37
number setitimer = 38
number sendfile = 40
number vfork = 58
number flock = 73
number fsync = 74
number fdatasync = 75
number sync = 162
number ftruncate = 77
number fchdir = 81
number rmdir = 84
number creat = 85
number readlink = 89
number fchmod = 91
number fchown = 93
number lchown = 94
number umask = 95
number getrlimit = 97
number getrusage = 98
number sysinfo = 99
number times = 100
number syslog = 103
number setpgid = 109
number getpgrp = 111
number setsid = 112
number setreuid = 113
number setregid = 114
number getgroups = 115
number setresuid = 117
number getresuid = 118
number setresgid = 119
number getresgid = 120
number getpgid = 121
number prlimit64 = 302
number select = 23
number poll = 7
number pselect6 = 270
number mmap = 9
number munmap = 11
number brk = 12
number sigaction = 13
number sigreturn = 15
number ioctl = 16
number pipe = 22
number dup2 = 33
number sleep = 35
number get_pid = 39
number socket = 41
number connect = 42
number accept = 43
number sendto = 44
number recvfrom = 45
number bind = 49
number listen = 50
number fork = 57
number exec = 59
number exit = 60
number wait = 61
number kill = 62
number uname = 63
number fcntl = 72
number truncate = 76
number read_dir = 78
number getcwd = 79
number chdir = 80
number rename = 82
number mkdir = 83
number unlink = 87
number chmod = 90
number chown = 92
number lseek = 8
number lstat = 6
number readv = 19
number mremap = 25
number sigprocmask = 14
number sig_pending = 127
number sig_suspend = 130
number get_time = 96
number mprotect = 10
number getppid = 110
number getuid = 102
number getgid = 104
number setuid = 105
number setgid = 106
number geteuid = 107
number getegid = 108
number gettid = 186
number futex = 202
number arch_prctl = 158
number set_tid_address = 218
number clock_gettime = 228
number exit_group = 231
number openat = 257
number pipe2 = 293
number shmget = 29
number shmat = 30
number shmdt = 67
number print = 400
number get_char = 401
number get_system_info = 402
number getenv = 403
number setenv = 404
number exec_args = 405
number send = 406
number recv = 407
number close_socket = 408
number msgq_create = 415
number msgsnd = 416
number msgrcv = 417
number msgq_destroy = 418
number msgrcv_wait = 419
number msgq_len = 420
number gui_create = 425
number gui_destroy = 426
number gui_fill_rect = 427
number gui_draw_text = 428
number gui_present = 429
number gui_poll_event = 430
number gui_get_size = 431
number gui_blit_shm = 432
number install_query = 433
number install_begin = 434
number dns_resolve = 435
number invalid = 2 ^ 64 - 1
