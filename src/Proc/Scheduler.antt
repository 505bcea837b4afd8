-- ===== src/Proc/Scheduler.antt =====
-- kernel/src/kernel/proc/scheduler.rs: the table of eight tasks and what the timer and the system
-- calls do to the tasks' states and signals.
pub mod Choose
pub mod Fair
pub mod Signals
pub mod Numbered
mod Tests
use Prim.Native.Nat.{bit_and, bit_or}
use oxide_os.Prelude.{
  ℕ, zero, suc, ◌+◌, ◌-◌, ◌*◌, ◌/◌, ◌%◌, ◌^◌, Bool, true, false, not, ◌&&◌, ◌||◌, Option, none,
  some, List, [], ◌∷◌, ◌++◌, map, ltb, leb, ◌==◌, if◌then◌else◌, ℤ, pos, neg, length, get_or, set,
  take, drop, replicate, min, find_index, for_range,
}
use oxide_os.Ipc.Pipe
use oxide_os.Ipc.Pipe.{Pipes}
use oxide_os.Ipc.MsgQueue.{Message, Queues, msgrcv}
use oxide_os.Ipc.Shm.{ShmAttach, ShmSegment, segment_pages, empty_attach, max_attach, page_size}
use oxide_os.Fs.FdTable
use oxide_os.Fs.FdTable.{FdTable, FdEntry, is_pipe}
use oxide_os.Proc.Task.{
  TaskState, empty, ready, running, sleeping, waiting, waiting_for_msg, dead, is_gone, is_ready,
  exit_code, Task, empty_task, TaskContext, zeroed, frame_bytes, frame_size, le_bytes, signal_bit,
  and_not, to_u64, max_tasks, user_code_addr, user_stack_top, user_stack_pages, task_output_cap,
  ticks_per_slice, exit_preempted, exit_sleeping, nsig, sig_dfl, sig_ign, sigkill, sigalrm, sigchld,
  sigcont, sigstop, user_sigtramp, max_mmap_regions, empty_region,
}

abbrev pub Tasks : Type 0
Tasks = List Task

-- `tasks[i]`; every index that the code uses is inside the table.
unfoldable pub task_at : Tasks → ℕ → Task
unfolding empty_task
task_at tasks i = get_or tasks i empty_task

abbrev pub has_pid : ℕ → Task → Bool
has_pid pid t = t.pid == pid

abbrev pub is_sleeping : TaskState → Bool
is_sleeping (sleeping _) = true
is_sleeping _ = false

-- What a signal other than SIGKILL does at once: it is pending, and a sleeper wakes.
pub signalled : ℕ → Task → Task
signalled signum t = record t {
  pending_signals = bit_or t.pending_signals (signal_bit signum);
  state = if is_sleeping t.state then ready else t.state;
}

unfoldable pub killed_by : ℕ → Task → Task
killed_by signum t = record t { state = dead (pos (128 + signum)) }

unfoldable pub send_signal : Tasks → ℕ → ℕ → Bool × Tasks
unfolding task_at find_index signalled killed_by
send_signal tasks pid signum =
    if signum == 0 || leb nsig signum
    then (false, tasks)
    else elim (find_index (has_pid pid) tasks) [
      | none ↦ (false, tasks)
      | some i ↦
          let t = task_at tasks i in
          if is_gone t.state
          then (false, tasks)
          else if signum == sigkill
          then (true, set tasks i (killed_by signum t))
          else (true, set tasks i (signalled signum t))
    ]

pub kill : Tasks → ℕ → Bool × Tasks
unfolding send_signal
kill tasks pid = send_signal tasks pid sigkill

-- A sleeper whose tick has come.
pub woken : ℕ → Task → Task
woken now t = elim t.state [
  | sleeping wake ↦ if leb wake now then record t { state = ready } else t
  | _ ↦ t
]

unfoldable pub wake_sleepers : ℕ → Tasks → Tasks
unfolding woken
wake_sleepers now tasks = map (woken now) tasks

-- One round of the loop over the alarms.
pub fire_alarm : ℕ → ℕ → Tasks → Tasks
unfolding task_at send_signal
fire_alarm now i tasks =
    let t = task_at tasks i in
    if not (t.alarm_deadline == 0) && leb t.alarm_deadline now
    then (let tasks' = set tasks i (record t { alarm_deadline = 0 }) in
        if t.pid == 0 then tasks' else (send_signal tasks' t.pid sigalrm).1)
    else tasks

unfoldable pub fire_alarms : ℕ → Tasks → Tasks
unfolding fire_alarm for_range
fire_alarms now tasks = for_range max_tasks 0 (fire_alarm now) tasks

-- A waiting parent's task and the child's slot after the child is reaped.
pub resumed : ℤ → Task → Task
resumed code t = record t { ctx = record t.ctx { rax = to_u64 code }; state = ready }

pub reaped : Task → Task
reaped t = record t { state = empty; pid = 0; parent_pid = 0 }

-- One round of the loop over the waiting parents: the child is the first task with its number.
pub reap_for : ℕ → Tasks → Tasks
unfolding task_at find_index resumed reaped
reap_for i tasks = elim (task_at tasks i).state [
  | waiting child ↦ elim (find_index (has_pid child) tasks) [
    | none ↦ tasks
    | some j ↦ elim (task_at tasks j).state [
      | dead code ↦
          let tasks' = set tasks i (resumed code (task_at tasks i)) in
          set tasks' j (reaped (task_at tasks' j))
      | _ ↦ tasks
    ]
  ]
  | _ ↦ tasks
]

unfoldable pub reap_children : Tasks → Tasks
unfolding reap_for for_range
reap_children tasks = for_range max_tasks 0 reap_for tasks

-- The search for the next ready task, `n` places from `idx` on, going round the table.
pub choose_from : ℕ → ℕ → Tasks → Option ℕ
unfolding task_at
choose_from zero idx tasks = none
choose_from (suc n) idx tasks =
    let rest = choose_from n ((idx + 1) % max_tasks) tasks in
    if is_ready (task_at tasks idx).state then some idx else rest

unfoldable pub choose : ℕ → Tasks → Option ℕ
unfolding choose_from
choose current tasks = choose_from max_tasks ((current + 1) % max_tasks) tasks
