-- ===== src/Proc/Spawn/Start.antt =====
-- The slot that spawn takes for a new program, and what it leaves alone.
use oxide_os.Prelude.{
  ℕ, ◌+◌, ◌<◌, Bool, true, false, some, List, [], ◌∷◌, ◌≡◌, ◌⊎◌, inl, inr, refl, sym, subst, ◌==◌,
  Bool-cases, Option-cases, length, set, replicate, find_index, find_index-some,
}
use oxide_os.Fs.FdTable
use oxide_os.Proc.Task.{Task, ready, empty_task, nsig, user_stack_pages, user_stack_top}
use oxide_os.Proc.Argv.{write_argv_to_stack}
use oxide_os.Proc.Scheduler.{task_at}
use oxide_os.Proc.Scheduler.Numbered.{Numbered, set-Numbered}
use oxide_os.Proc.Machine.{Machine, Sched}
use oxide_os.Proc.Spawn.{
  TaskError, empty_binary, max_tasks_reached, oom_page_table, oom_stack, Outcome, started, failed,
  is_free, load_code, install, spawn, spawned, stack_base,
}

-- A fresh task in its slot: ready to run for the first time, with the number of the slot, no
-- parent, no open file, no signal pending or masked, and every handler the default one.
abbrev Fresh : ℕ → Task → Type 0
Fresh slot t =
    (t.pid ≡ slot + 1)
    × (t.parent_pid ≡ 0)
    × (t.state ≡ ready)
    × (t.first_run ≡ true)
    × (t.fd_table ≡ FdTable.new)
    × (t.pending_signals ≡ 0)
    × (t.signal_mask ≡ 0)
    × (t.alarm_deadline ≡ 0)
    × (t.signal_handlers ≡ replicate nsig 0)
    × (t.output_len ≡ 0)

module _ (machine : Machine) where
  open machine use {Memory, create_user_page_table, map_user_region_in}

  -- What a spawn that succeeds does.
  unfoldable pub Starts : Sched Memory → Outcome × Sched Memory → Type 0
  unfolding task_at
  Starts s r =
      (slot : ℕ) × (r.0 ≡ started (slot + 1))
      × (slot < length s.tasks)
      × (is_free (task_at s.tasks slot) ≡ true)
      × ((j : ℕ) → j < slot → is_free (task_at s.tasks j) ≡ false)
      × (t : Task) × (r.1.tasks ≡ set s.tasks slot t)
      × Fresh slot t

  pub Fails : Sched Memory → Outcome × Sched Memory → Type 0
  Fails s r = (e : TaskError) × (r.0 ≡ failed e) × (r.1.tasks ≡ s.tasks)

  spawn-slot :
      (s : Sched Memory) (code name : List ℕ) (slot : ℕ)
      → (length code == 0) ≡ false
      → find_index is_free s.tasks ≡ some slot
      → Fails s (spawn machine s code name) ⊎ Starts s (spawn machine s code name)
  unfolding spawn Starts Fails install spawned task_at
  spawn-slot s code name slot long e = elim (Option-cases (create_user_page_table s.memory).0) [
    | inl q ↦ inl (oom_page_table, simp (spawn, long, e, q) refl, simp (spawn, long, e, q) refl)
    | inr (cr3, q) ↦ elim (Bool-cases (stack cr3).0) [
      | inr b ↦ inl (oom_stack, simp (spawn, long, e, q, b) refl, simp (spawn, long, e, q, b) refl)
      | inl b ↦ loaded cr3 q b (load_code machine (stack cr3).1 code cr3).0 refl
    ]
  ]
    where
      stack : ℕ → Bool × Memory
      stack cr3 =
          map_user_region_in (create_user_page_table s.memory).1 cr3 stack_base user_stack_pages
            true false

      loaded :
          (cr3 : ℕ)
          → (create_user_page_table s.memory).0 ≡ some cr3
          → (stack cr3).0 ≡ true
          → (o : Outcome) → (load_code machine (stack cr3).1 code cr3).0 ≡ o
          → Fails s (spawn machine s code name) ⊎ Starts s (spawn machine s code name)
      loaded cr3 q b (failed x) l =
          inl (x, simp (spawn, long, e, q, b, l) refl, simp (spawn, long, e, q, b, l) refl)
      loaded cr3 q b (started entry) l =
          let (lt, free, before) = find_index-some is_free empty_task s.tasks e in
          let rsp = (write_argv_to_stack s.env user_stack_top (name ∷ [])).0 in
          inr (
            slot,
            simp (spawn, long, e, q, b, l) refl,
            lt,
            free,
            before,
            spawned slot entry cr3 rsp name (task_at s.tasks slot),
            simp (spawn, long, e, q, b, l) refl,
            (refl, refl, refl, refl, refl, refl, refl, refl, refl, refl),
          )

  -- A spawn either fails and leaves the tasks as they were, or makes a fresh task in the lowest
  -- slot that is unused or whose task is finished, and returns its number; no other task changes.
  pub spawn_lem :
      (s : Sched Memory) (code name : List ℕ)
      → Fails s (spawn machine s code name) ⊎ Starts s (spawn machine s code name)
  unfolding spawn Fails
  spawn_lem s code name = elim (Bool-cases (length code == 0)) [
    | inl z ↦ inl (empty_binary, simp (spawn, z) refl, simp (spawn, z) refl)
    | inr long ↦ elim (Option-cases (find_index is_free s.tasks)) [
      | inl e ↦ inl (max_tasks_reached, simp (spawn, long, e) refl, simp (spawn, long, e) refl)
      | inr (slot, e) ↦ spawn-slot s code name slot long e
    ]
  ]

  -- A spawn keeps the numbers of the tasks.
  pub spawn-Numbered :
      (s : Sched Memory) (code name : List ℕ)
      → Numbered s.tasks
      → Numbered (spawn machine s code name).1.tasks
  unfolding Starts Fails
  spawn-Numbered s code name all = elim (spawn_lem s code name) [
    | inl (e, _, same) ↦ subst Numbered (sym same) all
    | inr (slot, _, _, _, _, t, made, fresh) ↦
        subst Numbered (sym made) (set-Numbered s.tasks slot t (inr fresh.0) all)
  ]
