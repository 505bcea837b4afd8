-- ===== src/Proc/Spawn/Tests.antt =====
-- The theorems on fork at a table of two tasks, over a memory that counts page tables.
use oxide_os.Prelude.{ℕ, suc, zero, true, false, none, some, [], ◌∷◌, ◌≡◌, ◌⊎◌, inl, inr, refl, pos}
use oxide_os.Fs.FdTable.{entry, pipe}
use oxide_os.Ipc.Pipe.{pipes_init, pipe_at, alloc}
use oxide_os.Ipc.Pipe.Valid.{pipes_init-AllValid}
use oxide_os.Ipc.Pipe.Alloc.{alloc-AllValid}
use oxide_os.Ipc.MsgQueue.{queues_init}
use oxide_os.Proc.Task.{Task, empty_task, ready, zeroed}
use oxide_os.Proc.Scheduler.{Tasks, task_at}
use oxide_os.Proc.Scheduler.Numbered.{Numbered}
use oxide_os.Proc.Env.{env_init}
use oxide_os.Proc.Machine.{Machine, Sched}
use oxide_os.Proc.Reach.{starts, forks, sends, wakes, tasks_init, run_events, reachable-Numbered}
use oxide_os.Proc.Spawn.{TaskError, failed, fork_task, spawn}
use oxide_os.Proc.Spawn.Start.{Fails, Starts, spawn_lem}
use oxide_os.Proc.Spawn.Slots.{Forks, PipesShared, fork_task_lem}

abbrev counting : Machine
counting = record {
  Memory = ℕ;
  create_user_page_table = λ m. (some (suc m), suc m);
  map_user_region_in = λ m cr3 base pages writable executable. (true, m);
  copy_to_region_in = λ m cr3 base bytes. m;
  free_user_page_table = λ m cr3. m;
  cow_fork_user_page_table = λ m cr3 stack shared. (some (suc m), suc m);
  is_elf = λ code. false;
  load_in = λ m code cr3. (none, m);
  write_unaligned = λ m ptr msg. m;
  launch_at = λ s entry rsp cr3. (pos 0, s);
  resume_user_context = λ s ctx cr3. (pos 0, s);
}

abbrev parent : Task
parent = record empty_task { state = ready; pid = 1 }

abbrev two : Tasks
two = parent ∷ empty_task ∷ []

abbrev sched : Sched ℕ
sched = record {
  tasks = two;
  current = 0;
  slice_remaining = 0;
  current_task_idx = 0;
  queues = queues_init;
  pipes = pipes_init;
  segtab = [];
  env = env_init;
  memory = 0;
}

two-Numbered : Numbered two
unfolding Numbered task_at empty_task
two-Numbered zero = inr refl
two-Numbered (suc zero) = inl refl
two-Numbered (suc (suc i)) = inl refl

-- The parent with a pipe: its write end twice and its read end once.
abbrev with_pipe : Sched ℕ
with_pipe = record sched {
  tasks =
      record parent {
        fd_table =
            some (entry pipe 0 (pos 80) 0 false false)
            ∷ none
            ∷ some (entry pipe 0 (pos 81) 0 true false)
            ∷ some (entry pipe 0 (pos 81) 0 true false)
            ∷ [];
      }
      ∷ empty_task
      ∷ [];
  pipes = (alloc pipes_init).1;
}

fork_task_lem_example :
    ((e : TaskError) × ((fork_task counting with_pipe 0 zeroed).0 ≡ failed e)
      × ((fork_task counting with_pipe 0 zeroed).1.tasks ≡ with_pipe.tasks)
      × ((fork_task counting with_pipe 0 zeroed).1.pipes ≡ with_pipe.pipes))
    ⊎ (Forks counting with_pipe 0 zeroed (fork_task counting with_pipe 0 zeroed)
        × PipesShared counting with_pipe 0 (fork_task counting with_pipe 0 zeroed).1)
fork_task_lem_example =
    fork_task_lem counting with_pipe 0 zeroed (alloc-AllValid pipes_init pipes_init-AllValid)

shares_the_pipe :
    ((pipe_at (fork_task counting with_pipe 0 zeroed).1.pipes 0).read_refs ≡ 2)
    × ((pipe_at (fork_task counting with_pipe 0 zeroed).1.pipes 0).write_refs ≡ 3)
unfolding fork_task pipe_at alloc pipes_init
shares_the_pipe = (refl, refl)

spawn_lem_example :
    Fails counting sched (spawn counting sched (1 ∷ 2 ∷ []) (3 ∷ []))
    ⊎ Starts counting sched (spawn counting sched (1 ∷ 2 ∷ []) (3 ∷ []))
spawn_lem_example = spawn_lem counting sched (1 ∷ 2 ∷ []) (3 ∷ [])

reachable-Numbered_example :
    Numbered
      (run_events counting
        (record sched { tasks = tasks_init })
        (starts (1 ∷ 2 ∷ []) (3 ∷ []) ∷ forks 0 zeroed ∷ sends 2 9 ∷ wakes 60 ∷ [])).tasks
reachable-Numbered_example =
    reachable-Numbered counting sched
      (starts (1 ∷ 2 ∷ []) (3 ∷ []) ∷ forks 0 zeroed ∷ sends 2 9 ∷ wakes 60 ∷ [])
