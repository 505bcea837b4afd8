-- ===== src/Sys/Number/Table.antt =====
-- The table that turns a number into a system call, and that it is the inverse of the numbers.
use oxide_os.Prelude.{
  ℕ, Bool, true, false, List, [], ◌∷◌, ◌≡◌, ◌≢◌, ◌↔◌, inl, inr, refl, sym, ap, ◌∙◌, ◌==◌, ==_iff,
  if◌then◌else◌, Bool-cases, ◌&&◌,
}
use oxide_os.Sys.Number.{
  Syscall, number, read, write, open_file, close, stat, fstat, pread64, pwrite64, writev, access,
  sched_yield, msync, mincore, madvise, shmctl, dup, pause, getitimer, alarm, setitimer, sendfile,
  vfork, flock, fsync, fdatasync, sync, ftruncate, fchdir, rmdir, creat, readlink, fchmod, fchown,
  lchown, umask, getrlimit, getrusage, sysinfo, times, syslog, setpgid, getpgrp, setsid, setreuid,
  setregid, getgroups, setresuid, getresuid, setresgid, getresgid, getpgid, prlimit64, select, poll,
  pselect6, mmap, munmap, brk, sigaction, sigreturn, ioctl, pipe, dup2, sleep, get_pid, socket,
  connect, accept, sendto, recvfrom, bind, listen, fork, exec, exit, wait, kill, uname, fcntl,
  truncate, read_dir, getcwd, chdir, rename, mkdir, unlink, chmod, chown, lseek, lstat, readv,
  mremap, sigprocmask, sig_pending, sig_suspend, get_time, mprotect, getppid, getuid, getgid,
  setuid, setgid, geteuid, getegid, gettid, futex, arch_prctl, set_tid_address, clock_gettime,
  exit_group, openat, pipe2, shmget, shmat, shmdt, print, get_char, get_system_info, getenv, setenv,
  exec_args, send, recv, close_socket, msgq_create, msgsnd, msgrcv, msgq_destroy, msgrcv_wait,
  msgq_len, gui_create, gui_destroy, gui_fill_rect, gui_draw_text, gui_present, gui_poll_event,
  gui_get_size, gui_blit_shm, install_query, install_begin, dns_resolve, invalid,
}

abbrev pub Row : Type 0
Row = ℕ × Syscall

-- The arms of `match num` in `From<u64>`, in order.
abbrev pub table : List Row
table =
    (0, read)
    ∷ (1, write)
    ∷ (2, open_file)
    ∷ (3, close)
    ∷ (4, stat)
    ∷ (5, fstat)
    ∷ (7, poll)
    ∷ (6, lstat)
    ∷ (8, lseek)
    ∷ (9, mmap)
    ∷ (10, mprotect)
    ∷ (11, munmap)
    ∷ (12, brk)
    ∷ (13, sigaction)
    ∷ (15, sigreturn)
    ∷ (16, ioctl)
    ∷ (22, pipe)
    ∷ (29, shmget)
    ∷ (30, shmat)
    ∷ (33, dup2)
    ∷ (35, sleep)
    ∷ (39, get_pid)
    ∷ (41, socket)
    ∷ (42, connect)
    ∷ (43, accept)
    ∷ (44, sendto)
    ∷ (45, recvfrom)
    ∷ (49, bind)
    ∷ (50, listen)
    ∷ (57, fork)
    ∷ (58, vfork)
    ∷ (59, exec)
    ∷ (60, exit)
    ∷ (61, wait)
    ∷ (62, kill)
    ∷ (63, uname)
    ∷ (67, shmdt)
    ∷ (72, fcntl)
    ∷ (73, flock)
    ∷ (74, fsync)
    ∷ (75, fdatasync)
    ∷ (162, sync)
    ∷ (76, truncate)
    ∷ (77, ftruncate)
    ∷ (78, read_dir)
    ∷ (79, getcwd)
    ∷ (80, chdir)
    ∷ (81, fchdir)
    ∷ (82, rename)
    ∷ (83, mkdir)
    ∷ (84, rmdir)
    ∷ (85, creat)
    ∷ (87, unlink)
    ∷ (89, readlink)
    ∷ (90, chmod)
    ∷ (91, fchmod)
    ∷ (92, chown)
    ∷ (93, fchown)
    ∷ (94, lchown)
    ∷ (95, umask)
    ∷ (96, get_time)
    ∷ (97, getrlimit)
    ∷ (98, getrusage)
    ∷ (99, sysinfo)
    ∷ (100, times)
    ∷ (103, syslog)
    ∷ (109, setpgid)
    ∷ (111, getpgrp)
    ∷ (112, setsid)
    ∷ (113, setreuid)
    ∷ (114, setregid)
    ∷ (115, getgroups)
    ∷ (117, setresuid)
    ∷ (118, getresuid)
    ∷ (119, setresgid)
    ∷ (120, getresgid)
    ∷ (121, getpgid)
    ∷ (23, select)
    ∷ (270, pselect6)
    ∷ (302, prlimit64)
    ∷ (17, pread64)
    ∷ (18, pwrite64)
    ∷ (14, sigprocmask)
    ∷ (127, sig_pending)
    ∷ (130, sig_suspend)
    ∷ (19, readv)
    ∷ (20, writev)
    ∷ (21, access)
    ∷ (24, sched_yield)
    ∷ (25, mremap)
    ∷ (26, msync)
    ∷ (27, mincore)
    ∷ (28, madvise)
    ∷ (31, shmctl)
    ∷ (32, dup)
    ∷ (34, pause)
    ∷ (36, getitimer)
    ∷ (37, alarm)
    ∷ (38, setitimer)
    ∷ (40, sendfile)
    ∷ (102, getuid)
    ∷ (104, getgid)
    ∷ (105, setuid)
    ∷ (106, setgid)
    ∷ (107, geteuid)
    ∷ (108, getegid)
    ∷ (110, getppid)
    ∷ (158, arch_prctl)
    ∷ (186, gettid)
    ∷ (202, futex)
    ∷ (218, set_tid_address)
    ∷ (228, clock_gettime)
    ∷ (231, exit_group)
    ∷ (257, openat)
    ∷ (293, pipe2)
    ∷ (400, print)
    ∷ (401, get_char)
    ∷ (402, get_system_info)
    ∷ (403, getenv)
    ∷ (404, setenv)
    ∷ (405, exec_args)
    ∷ (406, send)
    ∷ (407, recv)
    ∷ (408, close_socket)
    ∷ (415, msgq_create)
    ∷ (416, msgsnd)
    ∷ (417, msgrcv)
    ∷ (418, msgq_destroy)
    ∷ (419, msgrcv_wait)
    ∷ (420, msgq_len)
    ∷ (425, gui_create)
    ∷ (426, gui_destroy)
    ∷ (427, gui_fill_rect)
    ∷ (428, gui_draw_text)
    ∷ (429, gui_present)
    ∷ (430, gui_poll_event)
    ∷ (431, gui_get_size)
    ∷ (432, gui_blit_shm)
    ∷ (433, install_query)
    ∷ (434, install_begin)
    ∷ (435, dns_resolve)
    ∷ []

-- The first arm that fits, else `Invalid`.
unfoldable pub lookup : List Row → ℕ → Syscall
lookup [] num = invalid
lookup ((n, s) ∷ rows) num = let rest = lookup rows num in if n == num then s else rest

unfoldable pub from : ℕ → Syscall
unfolding lookup
from num = lookup table num

-- Every system call is found again from its number.
pub from-number : (s : Syscall) → from (number s) ≡ s
unfolding from lookup number
from-number read = refl
from-number write = refl
from-number open_file = refl
from-number close = refl
from-number stat = refl
from-number fstat = refl
from-number pread64 = refl
from-number pwrite64 = refl
from-number writev = refl
from-number access = refl
from-number sched_yield = refl
from-number msync = refl
from-number mincore = refl
from-number madvise = refl
from-number shmctl = refl
from-number dup = refl
from-number pause = refl
from-number getitimer = refl
from-number alarm = refl
from-number setitimer = refl
from-number sendfile = refl
from-number vfork = refl
from-number flock = refl
from-number fsync = refl
from-number fdatasync = refl
from-number sync = refl
from-number ftruncate = refl
from-number fchdir = refl
from-number rmdir = refl
from-number creat = refl
from-number readlink = refl
from-number fchmod = refl
from-number fchown = refl
from-number lchown = refl
from-number umask = refl
from-number getrlimit = refl
from-number getrusage = refl
from-number sysinfo = refl
from-number times = refl
from-number syslog = refl
from-number setpgid = refl
from-number getpgrp = refl
from-number setsid = refl
from-number setreuid = refl
from-number setregid = refl
from-number getgroups = refl
from-number setresuid = refl
from-number getresuid = refl
from-number setresgid = refl
from-number getresgid = refl
from-number getpgid = refl
from-number prlimit64 = refl
from-number select = refl
from-number poll = refl
from-number pselect6 = refl
from-number mmap = refl
from-number munmap = refl
from-number brk = refl
from-number sigaction = refl
from-number sigreturn = refl
from-number ioctl = refl
from-number pipe = refl
from-number dup2 = refl
from-number sleep = refl
from-number get_pid = refl
from-number socket = refl
from-number connect = refl
from-number accept = refl
from-number sendto = refl
from-number recvfrom = refl
from-number bind = refl
from-number listen = refl
from-number fork = refl
from-number exec = refl
from-number exit = refl
from-number wait = refl
from-number kill = refl
from-number uname = refl
from-number fcntl = refl
from-number truncate = refl
from-number read_dir = refl
from-number getcwd = refl
from-number chdir = refl
from-number rename = refl
from-number mkdir = refl
from-number unlink = refl
from-number chmod = refl
from-number chown = refl
from-number lseek = refl
from-number lstat = refl
from-number readv = refl
from-number mremap = refl
from-number sigprocmask = refl
from-number sig_pending = refl
from-number sig_suspend = refl
from-number get_time = refl
from-number mprotect = refl
from-number getppid = refl
from-number getuid = refl
from-number getgid = refl
from-number setuid = refl
from-number setgid = refl
from-number geteuid = refl
from-number getegid = refl
from-number gettid = refl
from-number futex = refl
from-number arch_prctl = refl
from-number set_tid_address = refl
from-number clock_gettime = refl
from-number exit_group = refl
from-number openat = refl
from-number pipe2 = refl
from-number shmget = refl
from-number shmat = refl
from-number shmdt = refl
from-number print = refl
from-number get_char = refl
from-number get_system_info = refl
from-number getenv = refl
from-number setenv = refl
from-number exec_args = refl
from-number send = refl
from-number recv = refl
from-number close_socket = refl
from-number msgq_create = refl
from-number msgsnd = refl
from-number msgrcv = refl
from-number msgq_destroy = refl
from-number msgrcv_wait = refl
from-number msgq_len = refl
from-number gui_create = refl
from-number gui_destroy = refl
from-number gui_fill_rect = refl
from-number gui_draw_text = refl
from-number gui_present = refl
from-number gui_poll_event = refl
from-number gui_get_size = refl
from-number gui_blit_shm = refl
from-number install_query = refl
from-number install_begin = refl
from-number dns_resolve = refl
from-number invalid = refl

abbrev agree : List Row → Bool
agree [] = true
agree ((n, s) ∷ rows) = (number s == n) && agree rows

table-agree : agree table ≡ true
unfolding number
table-agree = refl

and-true : (a b : Bool) → (a && b) ≡ true → (a ≡ true) × (b ≡ true)
and-true true b e = (refl, e)
and-true false b e = cc

number-lookup :
    (rows : List Row) (num : ℕ)
    → agree rows ≡ true
    → lookup rows num ≢ invalid
    → number (lookup rows num) ≡ num
unfolding lookup
number-lookup [] num all ne = absurd (ne refl)
number-lookup ((n, s) ∷ rows) num all ne = elim (Bool-cases (n == num)) [
  | inl e ↦
      simp e
        ((==_iff (number s) n).0 (and-true (number s == n) (agree rows) all).0 ∙ (==_iff n num).0 e)
  | inr e ↦
      simp e
        (number-lookup rows num (and-true (number s == n) (agree rows) all).1 (λ q. ne (simp e q)))
]

-- A number that is not that of the invalid call is the number of the call that it selects.
pub number-from : (num : ℕ) → from num ≢ invalid → number (from num) ≡ num
unfolding from
number-from num ne = number-lookup table num table-agree ne

-- A number decodes to a call other than `invalid` exactly when it is the number of that call.
pub from_iff : (num : ℕ) (s : Syscall) → s ≢ invalid → (from num ≡ s) ↔ (num ≡ number s)
from_iff num s valid = (
  λ e. sym (number-from num (λ i. valid (sym e ∙ i))) ∙ ap number e,
  λ e. ap from e ∙ from-number s,
)
