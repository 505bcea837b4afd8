-- ===== src/Proc/Tick.antt =====
-- kernel/src/kernel/proc/scheduler.rs, tick and the calls that leave the running task: one round of
-- the scheduler over all its tables. The base of thread-local storage (a machine register) and the
-- log on the serial port are left out.
use oxide_os.Prelude.{
  ℕ, false, Option, none, some, ◌==◌, if◌then◌else◌, ℤ, pos, negsuc, neg, set, for_range, ◌^◌, ◌-◌,
}
use oxide_os.Ipc.MsgQueue.{msgrcv}
use oxide_os.Proc.Task.{
  TaskState, ready, running, sleeping, waiting, waiting_for_msg, dead, exit_code, Task, TaskContext,
  max_tasks, ticks_per_slice, sigchld,
}
use oxide_os.Proc.Scheduler.{
  task_at, send_signal, wake_sleepers, fire_alarms, reap_children, choose,
}
use oxide_os.Proc.Machine.{Machine, Sched}
use oxide_os.Proc.Deliver.{deliver_pending_signals}

-- What the scheduler makes of the value with which a program came back.
pub data Return : Type 0 where
  was_preempted was_sleeping : Return
  has_exited : ℤ → Return

-- `match exit_code`: `i64::MIN`, its successor, any other value.
abbrev pub classify : ℤ → Return
classify (pos n) = has_exited (pos n)
classify (negsuc n) =
    if n == 2 ^ 63 - 1
    then was_preempted
    else if n == 2 ^ 63 - 2
    then was_sleeping
    else has_exited (negsuc n)

-- A task that waited for a message and has it.
abbrev pub with_message : Task → Task
with_message t = record t { ctx = record t.ctx { rax = 0 }; state = ready }

-- A task put aside with its registers.
abbrev pub parked : TaskState → TaskContext → Task → Task
parked state ctx t = record t { ctx = record ctx { rax = 0 }; state = state }

module _ (machine : Machine) where
  open machine use {Memory, free_user_page_table, write_unaligned, launch_at, resume_user_context}

  -- One round of the loop over the tasks that wait for a message.
  pub wake_message : ℕ → Sched Memory → Sched Memory
  unfolding task_at msgrcv
  wake_message i s = elim (task_at s.tasks i).state [
    | waiting_for_msg queue_id msg_ptr ↦
        let received = msgrcv s.queues queue_id in
        elim received.1 [
          | none ↦ record s { queues = received.2 }
          | some msg ↦ record s {
            queues = received.2;
            memory = write_unaligned s.memory msg_ptr msg;
            tasks = set s.tasks i (with_message (task_at s.tasks i));
          }
        ]
    | _ ↦ s
  ]

  pub wake_messages : Sched Memory → Sched Memory
  unfolding wake_message for_range
  wake_messages s = for_range max_tasks 0 wake_message s

  -- The four loops before a task is chosen.
  pub wake_all : ℕ → Sched Memory → Sched Memory
  unfolding wake_sleepers fire_alarms wake_messages reap_children
  wake_all now s =
      let s' = wake_messages (record s { tasks = fire_alarms now (wake_sleepers now s.tasks) }) in
      record s' { tasks = reap_children s'.tasks }

  -- The pages of a task that is dead.
  pub freed : ℕ → Sched Memory → Sched Memory
  unfolding task_at
  freed idx s =
      let t = task_at s.tasks idx in
      if t.cr3 == 0 then s else record s {
        memory = free_user_page_table s.memory t.cr3;
        tasks = set s.tasks idx (record t { cr3 = 0 });
      }

  -- The program that runs at `idx`, until it is back in the kernel.
  pub execute : ℕ → Sched Memory → ℤ × Sched Memory
  unfolding task_at
  execute idx s =
      let t = task_at s.tasks idx in
      let started = record s { tasks = set s.tasks idx (record t { first_run = false }) } in
      if t.first_run
      then launch_at started t.entry t.initial_rsp t.cr3
      else resume_user_context s t.ctx t.cr3

  pub exited : ℤ → ℕ → Sched Memory → Option (ℕ × ℤ) × Sched Memory
  unfolding task_at freed send_signal
  exited code idx s =
      let t = task_at s.tasks idx in
      let s' = freed idx (record s { tasks = set s.tasks idx (record t { state = dead code }) }) in
      let told = record s' { tasks = (send_signal s'.tasks t.parent_pid sigchld).1 } in
      (some (t.pid, code), if t.parent_pid == 0 then s' else told)

  pub run_slice : ℕ → Sched Memory → Option (ℕ × ℤ) × Sched Memory
  unfolding task_at execute exited
  run_slice idx s =
      let t = task_at s.tasks idx in
      let back = execute idx (record s {
        tasks = set s.tasks idx (record t { state = running });
        slice_remaining = ticks_per_slice;
      }) in
      let s' = back.1 in
      let again = set s'.tasks idx (record (task_at s'.tasks idx) { state = ready }) in
      elim (classify back.0) [
        | was_preempted ↦ (none, record s' { tasks = again })
        | was_sleeping ↦ (none, s')
        | has_exited code ↦ exited code idx s'
      ]

  -- Signals first, if some are pending; a task that they kill does not run.
  pub run_task : ℕ → Sched Memory → Option (ℕ × ℤ) × Sched Memory
  unfolding task_at deliver_pending_signals freed run_slice
  run_task idx s =
      let t = task_at s.tasks idx in
      let (killed, t', memory') = deliver_pending_signals machine t s.memory in
      let s' = record s { tasks = set s.tasks idx t'; memory = memory' } in
      if t.pending_signals == 0
      then run_slice idx s
      else if killed
      then (
        some (t'.pid, elim (exit_code t'.state) [ none ↦ neg 1 | some code ↦ code ]),
        freed idx s',
      )
      else run_slice idx s'

  pub tick : ℕ → Sched Memory → Option (ℕ × ℤ) × Sched Memory
  unfolding wake_all choose run_task
  tick now s =
      let s' = wake_all now s in
      elim (choose s'.current s'.tasks) [
        | none ↦ (none, s')
        | some idx ↦ run_task idx (record s' { current = idx; current_task_idx = idx })
      ]

  -- The state that each of these calls leaves before it returns to the scheduler.
  pub preempt : TaskContext → Sched Memory → Sched Memory
  unfolding task_at
  preempt ctx s = record s {
    tasks = set s.tasks s.current (record (task_at s.tasks s.current) { ctx = ctx });
  }

  pub sleep_task : ℕ → TaskContext → Sched Memory → Sched Memory
  unfolding task_at
  sleep_task wake_tick ctx s = record s {
    tasks = set s.tasks s.current (parked (sleeping wake_tick) ctx (task_at s.tasks s.current));
  }

  pub wait_for_pid : ℕ → ℕ → TaskContext → Sched Memory → Sched Memory
  unfolding task_at
  wait_for_pid parent_idx child_pid ctx s = record s {
    tasks = set s.tasks parent_idx (parked (waiting child_pid) ctx (task_at s.tasks parent_idx));
  }

  pub wait_for_msg : ℕ → ℕ → TaskContext → Sched Memory → Sched Memory
  unfolding task_at
  wait_for_msg queue_id msg_ptr ctx s = record s {
    tasks =
        set s.tasks s.current
          (parked (waiting_for_msg queue_id msg_ptr) ctx (task_at s.tasks s.current));
  }
