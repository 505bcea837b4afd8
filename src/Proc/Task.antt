-- ===== src/Proc/Task.antt =====
-- kernel/src/kernel/proc/scheduler.rs and user_mode.rs: the task and its registers. The name, the
-- output, the path and the tables of a task are lists.
use Prim.Native.Nat.{bit_and}
use oxide_os.Prelude.{
  ℕ, ◌-◌, ◌*◌, ◌/◌, ◌%◌, ◌^◌, Bool, true, false, Option, none, some, List, [], ◌∷◌, ◌++◌, ℤ, pos,
  negsuc, neg, replicate,
}
use oxide_os.Ipc.Shm.{ShmAttach, empty_attach, max_attach}
use oxide_os.Fs.FdTable
use oxide_os.Fs.FdTable.{FdTable}

abbrev pub max_tasks : ℕ
max_tasks = 8

abbrev pub user_code_addr : ℕ
user_code_addr = 0x40_0000

abbrev pub user_stack_top : ℕ
user_stack_top = 0x80_0000

abbrev pub user_stack_pages : ℕ
user_stack_pages = 64

abbrev pub task_output_cap : ℕ
task_output_cap = 2048

abbrev pub ticks_per_slice : ℕ
ticks_per_slice = 2

-- `i64::MIN` and its successor.
abbrev pub exit_preempted : ℤ
exit_preempted = neg (2 ^ 63)

abbrev pub exit_sleeping : ℤ
exit_sleeping = neg (2 ^ 63 - 1)

pub data TaskState : Type 0 where
  empty ready running : TaskState
  sleeping : ℕ → TaskState
  waiting : ℕ → TaskState
  waiting_for_msg : ℕ → ℕ → TaskState
  dead : ℤ → TaskState

-- `matches!(state, Empty | Dead(_))`
abbrev pub is_gone : TaskState → Bool
is_gone empty = true
is_gone (dead _) = true
is_gone _ = false

abbrev pub is_ready : TaskState → Bool
is_ready ready = true
is_ready _ = false

pub exit_code : TaskState → Option ℤ
exit_code (dead code) = some code
exit_code _ = none

abbrev pub cwd_max : ℕ
cwd_max = 128

abbrev pub max_mmap_regions : ℕ
max_mmap_regions = 32

pub record MmapRegion : Type 0 where
  pub virt : ℕ
  pub pages : ℕ

abbrev pub empty_region : MmapRegion
empty_region = record { virt = 0; pages = 0 }

abbrev pub nsig : ℕ
nsig = 32

abbrev pub sig_dfl : ℕ
sig_dfl = 0

abbrev pub sig_ign : ℕ
sig_ign = 1

abbrev pub sigkill : ℕ
sigkill = 9

abbrev pub sigalrm : ℕ
sigalrm = 14

abbrev pub sigchld : ℕ
sigchld = 17

abbrev pub sigcont : ℕ
sigcont = 18

abbrev pub sigstop : ℕ
sigstop = 19

abbrev pub user_sigtramp : ℕ
user_sigtramp = 0x90_0000

pub record TaskContext : Type 0 where
  pub r15 : ℕ
  pub r14 : ℕ
  pub r13 : ℕ
  pub r12 : ℕ
  pub r11 : ℕ
  pub r10 : ℕ
  pub r9 : ℕ
  pub r8 : ℕ
  pub rdi : ℕ
  pub rsi : ℕ
  pub rbp : ℕ
  pub rdx : ℕ
  pub rcx : ℕ
  pub rbx : ℕ
  pub rax : ℕ
  pub rip : ℕ
  pub cs : ℕ
  pub rflags : ℕ
  pub rsp : ℕ
  pub ss : ℕ

abbrev pub zeroed : TaskContext
zeroed = record {
  r15 = 0;
  r14 = 0;
  r13 = 0;
  r12 = 0;
  r11 = 0;
  r10 = 0;
  r9 = 0;
  r8 = 0;
  rdi = 0;
  rsi = 0;
  rbp = 0;
  rdx = 0;
  rcx = 0;
  rbx = 0;
  rax = 0;
  rip = 0;
  cs = 0;
  rflags = 0;
  rsp = 0;
  ss = 0;
}

-- A `u64` in memory, lowest byte first.
unfoldable pub le_bytes : ℕ → List ℕ
le_bytes n =
    n % 256
    ∷ n / 2 ^ 8 % 256
    ∷ n / 2 ^ 16 % 256
    ∷ n / 2 ^ 24 % 256
    ∷ n / 2 ^ 32 % 256
    ∷ n / 2 ^ 40 % 256
    ∷ n / 2 ^ 48 % 256
    ∷ n / 2 ^ 56 % 256
    ∷ []

unfoldable all_bytes : List ℕ → List ℕ
unfolding le_bytes
all_bytes [] = []
all_bytes (n ∷ ns) = le_bytes n ++ all_bytes ns

abbrev pub frame_size : ℕ
frame_size = 17 * 8

-- The bytes of the `SignalFrame` that holds the registers.
unfoldable pub frame_bytes : TaskContext → List ℕ
unfolding all_bytes
frame_bytes c = all_bytes (
    c.rip ∷ c.rax ∷ c.rbx ∷ c.rcx ∷ c.rdx ∷ c.rsi ∷ c.rdi ∷ c.r8 ∷ c.r9 ∷ c.r10 ∷ c.r11 ∷ c.r12
    ∷ c.r13 ∷ c.r14 ∷ c.r15 ∷ c.rbp ∷ c.rflags ∷ [])

pub record Task : Type 0 where
  pub state : TaskState
  pub ctx : TaskContext
  pub name : List ℕ
  pub name_len : ℕ
  pub first_run : Bool
  pub entry : ℕ
  pub cr3 : ℕ
  pub pid : ℕ
  pub parent_pid : ℕ
  pub pgid : ℕ
  pub fs_base : ℕ
  pub heap_end : ℕ
  pub mmap_end : ℕ
  pub output : List ℕ
  pub output_len : ℕ
  pub fd_table : FdTable
  pub cwd : List ℕ
  pub cwd_len : ℕ
  pub pending_signals : ℕ
  pub signal_mask : ℕ
  pub saved_signal_mask : ℕ
  pub in_sigsuspend : Bool
  pub alarm_deadline : ℕ
  pub signal_handlers : List ℕ
  pub shm_attaches : List ShmAttach
  pub initial_rsp : ℕ
  pub mmap_regions : List MmapRegion
  pub mmap_nregions : ℕ

unfoldable pub empty_task : Task
empty_task = record {
  state = empty;
  ctx = zeroed;
  name = replicate 16 0;
  name_len = 0;
  first_run = true;
  entry = user_code_addr;
  cr3 = 0;
  pid = 0;
  parent_pid = 0;
  pgid = 0;
  fs_base = 0;
  heap_end = 0;
  mmap_end = 0;
  output = replicate task_output_cap 0;
  output_len = 0;
  fd_table = FdTable.new;
  cwd = b'/' ∷ replicate (cwd_max - 1) 0;
  cwd_len = 1;
  pending_signals = 0;
  signal_mask = 0;
  saved_signal_mask = 0;
  in_sigsuspend = false;
  alarm_deadline = 0;
  signal_handlers = replicate nsig 0;
  shm_attaches = replicate max_attach empty_attach;
  initial_rsp = user_stack_top - 16;
  mmap_regions = replicate max_mmap_regions empty_region;
  mmap_nregions = 0;
}

-- The bit of a signal in a mask, and `a & !b` on a `u32`.
abbrev pub signal_bit : ℕ → ℕ
signal_bit signum = 2 ^ (signum - 1)

abbrev pub and_not : ℕ → ℕ → ℕ
and_not a b = bit_and a (2 ^ 32 - 1 - b)

-- `code as u64`
abbrev pub to_u64 : ℤ → ℕ
to_u64 (pos n) = n % 2 ^ 64
to_u64 (negsuc n) = 2 ^ 64 - 1 - n % 2 ^ 64
