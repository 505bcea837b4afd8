-- ===== src/Proc/Reach.antt =====
-- Every sequence of what happens to the table of tasks outside the tasks themselves.
use oxide_os.Prelude.{ℕ, List, [], ◌∷◌, replicate, inl, refl, subst, sym, get_or-replicate}
use oxide_os.Proc.Task.{TaskContext, empty_task, max_tasks}
use oxide_os.Proc.Machine.{Machine, Sched}
use oxide_os.Proc.Scheduler.{Tasks, task_at, send_signal, wake_sleepers, fire_alarms, reap_children}
use oxide_os.Proc.Scheduler.Numbered.{NumberedAt, Numbered, send_signal-Numbered, wake-Numbered}
use oxide_os.Proc.Spawn.{spawn, fork_task}
use oxide_os.Proc.Spawn.Start.{spawn-Numbered}
use oxide_os.Proc.Spawn.Slots.{fork_task-Numbered}

-- A program is started, a task forks, a signal is sent, the timer's loops run.
pub data Event : Type 0 where
  starts : List ℕ → List ℕ → Event
  forks : ℕ → TaskContext → Event
  sends : ℕ → ℕ → Event
  wakes : ℕ → Event

-- The table at boot.
unfoldable pub tasks_init : Tasks
tasks_init = replicate max_tasks empty_task

module _ (machine : Machine) where
  open machine use {Memory}

  unfoldable pub step : Sched Memory → Event → Sched Memory
  step s (starts code name) = (spawn machine s code name).1
  step s (forks parent ctx) = (fork_task machine s parent ctx).1
  step s (sends pid signum) = record s { tasks = (send_signal s.tasks pid signum).1 }
  step s (wakes now) = record s {
    tasks = reap_children (fire_alarms now (wake_sleepers now s.tasks));
  }

  unfoldable pub run_events : Sched Memory → List Event → Sched Memory
  run_events s [] = s
  run_events s (e ∷ es) = run_events (step s e) es

  step-Numbered : (s : Sched Memory) (e : Event) → Numbered s.tasks → Numbered (step s e).tasks
  unfolding step
  step-Numbered s (starts code name) all = spawn-Numbered machine s code name all
  step-Numbered s (forks parent ctx) all = fork_task-Numbered machine s parent ctx all
  step-Numbered s (sends pid signum) all = send_signal-Numbered s.tasks pid signum all
  step-Numbered s (wakes now) all = wake-Numbered now s.tasks all

  run_events-Numbered :
      (s : Sched Memory) (es : List Event) → Numbered s.tasks → Numbered (run_events s es).tasks
  unfolding run_events
  run_events-Numbered s [] all = all
  run_events-Numbered s (e ∷ es) all = run_events-Numbered (step s e) es (step-Numbered s e all)

  -- From the empty table at boot, after any starts, forks, signals and runs of the timer's loops
  -- over sleepers, alarms and waiting parents: the task in slot `i` has the number `i + 1`, or 0
  -- when the slot was never used or its task was reaped.
  pub reachable-Numbered :
      (s : Sched Memory) (es : List Event)
      → Numbered (run_events (record s { tasks = tasks_init }) es).tasks
  unfolding Numbered tasks_init task_at
  reachable-Numbered s es =
      run_events-Numbered (record s { tasks = tasks_init }) es
        (λ i. subst (NumberedAt i) (sym (get_or-replicate max_tasks i empty_task)) (inl refl))
