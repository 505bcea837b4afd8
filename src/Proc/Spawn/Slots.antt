-- ===== src/Proc/Spawn/Slots.antt =====
-- The slot that fork_task takes for the child, and what it leaves alone.
use oxide_os.Prelude.{
  ℕ, suc, ◌+◌, ◌-◌, ◌<◌, ◌≤◌, Bool, true, false, not, ◌&&◌, Option, some, [], ◌∷◌, ◌≡◌, ◌≢◌, ◌⊎◌,
  inl, inr, refl, sym, ap, subst, ◌∙◌, ◌==◌, Bool-cases, Option-cases, length, get_or, set, arith,
}
use oxide_os.Ipc.Pipe.{pipe_at, pipe_count}
use oxide_os.Ipc.Pipe.Valid.{AllValid}
use oxide_os.Proc.Task.{Task, ready, TaskContext, empty_task, user_stack_top}
use oxide_os.Proc.Scheduler.{Tasks, task_at}
use oxide_os.Proc.Scheduler.Numbered.{Numbered, set-Numbered}
use oxide_os.Proc.Machine.{Machine, Sched}
use oxide_os.Proc.Spawn.{
  TaskError, max_tasks_reached, oom_fork, Outcome, started, failed, is_free, free_slot_from, forked,
  fork_task, addref_all, stack_base, shm_ranges,
}
use oxide_os.Proc.Spawn.Inherit.{inherited, addref_all-inherited}

and-true : (a b : Bool) → (a && b) ≡ true → (a ≡ true) × (b ≡ true)
and-true true b e = (refl, e)
and-true false b e = cc

-- A free slot that is not the parent's, and the lowest of those from `i` on.
abbrev FreeSlot : ℕ → ℕ → Tasks → ℕ → Type 0
FreeSlot parent i tasks slot =
    (slot < i + length tasks)
    × (i ≤ slot)
    × (slot ≢ parent)
    × (is_free (get_or tasks (slot - i) empty_task) ≡ true)

free_slot_from-FreeSlot :
    (parent i : ℕ) (tasks : Tasks) (slot : ℕ)
    → free_slot_from parent i tasks ≡ some slot
    → FreeSlot parent i tasks slot
unfolding free_slot_from
free_slot_from-FreeSlot parent i [] slot e = cc
free_slot_from-FreeSlot parent i (t ∷ tasks) slot e =
    elim (Bool-cases (not (i == parent) && is_free t)) [
      | inl h ↦
          let here : i ≡ slot = injective (sym (simp (free_slot_from, h) refl) ∙ e) in
          let (apart, free) = and-true (not (i == parent)) (is_free t) h in
          (
            omega (arith, here),
            omega (arith, here),
            ground (arith, apart, here),
            ap (λ k. is_free (get_or (t ∷ tasks) k empty_task)) (at_zero here) ∙ free,
          )
      | inr h ↦
          let (l, g, ne, free) =
            free_slot_from-FreeSlot parent (suc i) tasks slot
              (sym (simp (free_slot_from, h) refl) ∙ e) in
          (
            omega (arith, l),
            omega (arith, g),
            ne,
            ap (λ k. is_free (get_or (t ∷ tasks) k empty_task)) (behind g) ∙ free,
          )
    ]
  where
    injective : {a : ℕ} → some a ≡ some slot → a ≡ slot
    injective q = cc

    at_zero : i ≡ slot → slot - i ≡ 0
    at_zero h = omega (arith, h)

    behind : suc i ≤ slot → slot - i ≡ suc (slot - suc i)
    behind g = omega arith

-- A child in its slot: it is ready with the given registers, its number is that of the slot, and
-- it has the parent's files, directory, group, handlers and break, and no signal pending.
abbrev Inherits : Task → TaskContext → ℕ → Task → Type 0
Inherits parent ctx slot child =
    (child.pid ≡ slot + 1)
    × (child.parent_pid ≡ parent.pid)
    × (child.state ≡ ready)
    × (child.ctx ≡ ctx)
    × (child.first_run ≡ false)
    × (child.fd_table ≡ parent.fd_table)
    × (child.cwd ≡ parent.cwd)
    × (child.pgid ≡ parent.pgid)
    × (child.heap_end ≡ parent.heap_end)
    × (child.signal_handlers ≡ parent.signal_handlers)
    × (child.pending_signals ≡ 0)

module _ (machine : Machine) where
  open machine use {Memory, cow_fork_user_page_table}

  -- The child that a fork which succeeds makes, and its slot.
  unfoldable pub Forks : Sched Memory → ℕ → TaskContext → Outcome × Sched Memory → Type 0
  unfolding task_at
  Forks s parent ctx r =
      (slot : ℕ) × (r.0 ≡ started (slot + 1))
      × (slot < length s.tasks)
      × (slot ≢ parent)
      × (is_free (task_at s.tasks slot) ≡ true)
      × (child : Task) × (r.1.tasks ≡ set s.tasks slot child)
      × Inherits (task_at s.tasks parent) ctx slot child

  -- Every pipe has a reader more for each place of the parent's table that holds its read end, and
  -- a writer more for each that holds its write end, up to 255 of each; nothing else of it changes.
  abbrev pub PipesShared : Sched Memory → ℕ → Sched Memory → Type 0
  PipesShared s parent after =
      (i : ℕ)
      → i < pipe_count
      → pipe_at after.pipes i ≡ inherited (task_at s.tasks parent).fd_table i (pipe_at s.pipes i)

  fork_task-Forks :
      (s : Sched Memory) (parent : ℕ) (ctx : TaskContext)
      → ((e : TaskError) × ((fork_task machine s parent ctx).0 ≡ failed e)
          × ((fork_task machine s parent ctx).1.tasks ≡ s.tasks)
          × ((fork_task machine s parent ctx).1.pipes ≡ s.pipes))
        ⊎ (Forks s parent ctx (fork_task machine s parent ctx)
            × ((fork_task machine s parent ctx).1.pipes
                ≡ addref_all (task_at s.tasks parent).fd_table s.pipes))
  unfolding fork_task task_at Forks forked
  fork_task-Forks s parent ctx = elim (Option-cases (free_slot_from parent 0 s.tasks)) [
    | inl e ↦ inl (
      max_tasks_reached,
      simp (fork_task, e) refl,
      simp (fork_task, e) refl,
      simp (fork_task, e) refl,
    )
    | inr (slot, e) ↦
        let (l, g, ne, free) = free_slot_from-FreeSlot parent 0 s.tasks slot e in
        elim (Option-cases (table slot)) [
          | inl q ↦ inl (
            oom_fork,
            simp (fork_task, e, q) refl,
            simp (fork_task, e, q) refl,
            simp (fork_task, e, q) refl,
          )
          | inr (cr3, q) ↦ inr (
            (
              slot,
              simp (fork_task, e, q) refl,
              omega (arith, l),
              ne,
              ap (λ k. is_free (task_at s.tasks k)) (sym (less_zero slot)) ∙ free,
              forked slot ctx cr3 (task_at s.tasks parent) (task_at s.tasks slot),
              simp (fork_task, e, q) refl,
              (refl, refl, refl, refl, refl, refl, refl, refl, refl, refl, refl),
            ),
            simp (fork_task, e, q) refl,
          )
        ]
  ]
    where
      less_zero : (k : ℕ) → k - 0 ≡ k
      less_zero k = omega arith

      table : ℕ → Option ℕ
      table slot =
          (cow_fork_user_page_table s.memory (task_at s.tasks parent).cr3
            (stack_base, user_stack_top)
            (shm_ranges s.segtab (task_at s.tasks parent).shm_attaches)).0

  -- Where the table of pipes is well formed: a fork either fails and leaves the tasks and the
  -- pipes as they were, or makes the child in a free slot of the table that is not the parent's,
  -- with the slot's number, the given registers and the parent's files, directory, group, handlers
  -- and break, and no other task changes. Then every pipe has a reader or writer more for each place
  -- of the parent's table that holds its read or write end, up to 255, and is otherwise as before.
  pub fork_task_lem :
      (s : Sched Memory) (parent : ℕ) (ctx : TaskContext)
      → AllValid s.pipes
      → ((e : TaskError) × ((fork_task machine s parent ctx).0 ≡ failed e)
          × ((fork_task machine s parent ctx).1.tasks ≡ s.tasks)
          × ((fork_task machine s parent ctx).1.pipes ≡ s.pipes))
        ⊎ (Forks s parent ctx (fork_task machine s parent ctx)
            × PipesShared s parent (fork_task machine s parent ctx).1)
  fork_task_lem s parent ctx v = elim (fork_task-Forks s parent ctx) [
    | inl fails ↦ inl fails
    | inr (forks, pipes) ↦ inr (
      forks,
      λ i h.
          ap (λ ps. pipe_at ps i) pipes
          ∙ addref_all-inherited (task_at s.tasks parent).fd_table s.pipes i h v,
    )
  ]

  -- A fork keeps the numbers of the tasks.
  pub fork_task-Numbered :
      (s : Sched Memory) (parent : ℕ) (ctx : TaskContext)
      → Numbered s.tasks
      → Numbered (fork_task machine s parent ctx).1.tasks
  unfolding Forks
  fork_task-Numbered s parent ctx all = elim (fork_task-Forks s parent ctx) [
    | inl (e, _, same, _) ↦ subst Numbered (sym same) all
    | inr ((slot, _, _, _, _, child, made, inherits), _) ↦
        subst Numbered (sym made) (set-Numbered s.tasks slot child (inr inherits.0) all)
  ]
