-- ===== src/Proc/Scheduler/Numbered.antt =====
-- The numbers of the tasks: the task at index `i` has the number `i + 1`, or 0 while the slot was
-- never used or has been reaped. So a number is that of one task at most.
use oxide_os.Prelude.{
  ℕ, zero, suc, ◌+◌, ◌<◌, Bool, true, false, not, ◌&&◌, ◌||◌, Option, none, some, [], ◌∷◌, ◌≡◌, ◌⊎◌,
  inl, inr, refl, sym, subst, ◌∙◌, leb, ◌==◌, if◌then◌else◌, Bool-cases, Option-cases, length, set,
  get_or-set_self, get_or-set_ne, dec_lt, ℕ_discrete, find_index, for_range-keeps, ℤ, arith,
}
use oxide_os.Proc.Task.{
  TaskState, empty, ready, running, sleeping, waiting, waiting_for_msg, dead, is_gone, Task,
  empty_task, max_tasks, nsig, sigkill, sigalrm,
}
use oxide_os.Proc.Scheduler.{
  Tasks, task_at, has_pid, signalled, killed_by, send_signal, woken, wake_sleepers, fire_alarm,
  fire_alarms, resumed, reaped, reap_for, reap_children,
}

abbrev pub NumberedAt : ℕ → Task → Type 0
NumberedAt i t = (t.pid ≡ 0) ⊎ (t.pid ≡ i + 1)

unfoldable pub Numbered : Tasks → Type 0
unfolding task_at
Numbered tasks = (i : ℕ) → NumberedAt i (task_at tasks i)

pub set-Numbered :
    (tasks : Tasks) (i : ℕ) (t : Task) → NumberedAt i t → Numbered tasks → Numbered (set tasks i t)
unfolding task_at Numbered
set-Numbered tasks i t n all j = elim (ℕ_discrete i j) [
  | no ne ↦ subst (NumberedAt j) (sym (get_or-set_ne tasks i j t empty_task ne)) (all j)
  | yes e ↦ elim (dec_lt i (length tasks)) [
    | yes h ↦
        subst (λ k. NumberedAt k (task_at (set tasks i t) k)) e
          (subst (NumberedAt i) (sym (get_or-set_self tasks i t empty_task h)) n)
    | no h ↦ subst (NumberedAt j) (sym (outside tasks i t h j)) (all j)
  ]
]
  where
    outside :
        (ts : Tasks) (k : ℕ) (u : Task)
        → (¬ (k < length ts))
        → (m : ℕ) → task_at (set ts k u) m ≡ task_at ts m
    outside [] k u g m = refl
    outside (x ∷ ts) zero u g m = absurd (g (omega arith))
    outside (x ∷ ts) (suc k) u g zero = refl
    outside (x ∷ ts) (suc k) u g (suc m) = outside ts k u (λ l. g (omega arith)) m

pub send_signal-Numbered :
    (tasks : Tasks) (pid signum : ℕ) → Numbered tasks → Numbered (send_signal tasks pid signum).1
unfolding send_signal signalled killed_by task_at Numbered
send_signal-Numbered tasks pid signum all = elim (Bool-cases (signum == 0 || leb nsig signum)) [
  | inl bad ↦ simp (send_signal, bad) all
  | inr good ↦ elim (Option-cases (find_index (has_pid pid) tasks)) [
    | inl e ↦ simp (send_signal, good, e) all
    | inr (i, e) ↦ elim (Bool-cases (is_gone (task_at tasks i).state)) [
      | inl g ↦ simp (send_signal, good, e, g) all
      | inr g ↦ elim (Bool-cases (signum == sigkill)) [
        | inl k ↦
            simp (send_signal, good, e, g, k)
              (set-Numbered tasks i (killed_by signum (task_at tasks i)) (all i) all)
        | inr k ↦
            simp (send_signal, good, e, g, k)
              (set-Numbered tasks i (signalled signum (task_at tasks i)) (all i) all)
      ]
    ]
  ]
]

woken_pid : (now : ℕ) (t : Task) → (woken now t).pid ≡ t.pid
unfolding woken
woken_pid now t = go t.state
  where
    go :
        (s : TaskState)
        → Task.pid (elim s [
          | sleeping wake ↦ if leb wake now then record t { state = ready } else t
          | _ ↦ t
        ])
          ≡ t.pid
    go empty = refl
    go ready = refl
    go running = refl
    go (sleeping wake) = elim (Bool-cases (leb wake now)) [
      | inl b ↦ simp b refl
      | inr b ↦ simp b refl
    ]
    go (waiting p) = refl
    go (waiting_for_msg q p) = refl
    go (dead c) = refl

pub wake_sleepers-at :
    (now : ℕ) (tasks : Tasks) (i : ℕ)
    → task_at (wake_sleepers now tasks) i ≡ woken now (task_at tasks i)
unfolding wake_sleepers task_at woken empty_task
wake_sleepers-at now [] i = refl
wake_sleepers-at now (t ∷ tasks) zero = refl
wake_sleepers-at now (t ∷ tasks) (suc i) = wake_sleepers-at now tasks i

pub wake_sleepers-Numbered :
    (now : ℕ) (tasks : Tasks) → Numbered tasks → Numbered (wake_sleepers now tasks)
unfolding Numbered task_at
wake_sleepers-Numbered now tasks all i =
    subst (NumberedAt i) (sym (wake_sleepers-at now tasks i)) (go (all i))
  where
    go : NumberedAt i (task_at tasks i) → NumberedAt i (woken now (task_at tasks i))
    go (inl e) = inl (woken_pid now (task_at tasks i) ∙ e)
    go (inr e) = inr (woken_pid now (task_at tasks i) ∙ e)

fire_alarm-Numbered :
    (now i : ℕ) (tasks : Tasks) → Numbered tasks → Numbered (fire_alarm now i tasks)
unfolding fire_alarm task_at Numbered
fire_alarm-Numbered now i tasks all =
    go (not ((task_at tasks i).alarm_deadline == 0) && leb (task_at tasks i).alarm_deadline now)
      ((task_at tasks i).pid == 0)
  where
    cleared : Tasks
    cleared = set tasks i (record (task_at tasks i) { alarm_deadline = 0 })

    kept : Numbered cleared
    kept = set-Numbered tasks i (record (task_at tasks i) { alarm_deadline = 0 }) (all i) all

    go :
        (due orphan : Bool)
        → Numbered (
            if due
            then (if orphan then cleared else (send_signal cleared (task_at tasks i).pid sigalrm).1)
            else tasks)
    go true true = kept
    go true false = send_signal-Numbered cleared (task_at tasks i).pid sigalrm kept
    go false orphan = all

reap_for-Numbered : (i : ℕ) (tasks : Tasks) → Numbered tasks → Numbered (reap_for i tasks)
unfolding reap_for resumed reaped task_at Numbered
reap_for-Numbered i tasks all = go (task_at tasks i).state
  where
    parent : ℤ → Tasks
    parent code = set tasks i (resumed code (task_at tasks i))

    both : (code : ℤ) (j : ℕ) → Numbered (set (parent code) j (reaped (task_at (parent code) j)))
    both code j =
        set-Numbered (parent code) j (reaped (task_at (parent code) j)) (inl refl)
          (set-Numbered tasks i (resumed code (task_at tasks i)) (all i) all)

    child :
        (j : ℕ) (s : TaskState)
        → Numbered (elim s [
          | dead code ↦ set (parent code) j (reaped (task_at (parent code) j))
          | _ ↦ tasks
        ])
    child j empty = all
    child j ready = all
    child j running = all
    child j (sleeping w) = all
    child j (waiting p) = all
    child j (waiting_for_msg q p) = all
    child j (dead code) = both code j

    search :
        (o : Option ℕ)
        → Numbered (elim o [
          | none ↦ tasks
          | some j ↦ elim (task_at tasks j).state [
            | dead code ↦ set (parent code) j (reaped (task_at (parent code) j))
            | _ ↦ tasks
          ]
        ])
    search none = all
    search (some j) = child j (task_at tasks j).state

    go :
        (s : TaskState)
        → Numbered (elim s [
          | waiting c ↦ elim (find_index (has_pid c) tasks) [
            | none ↦ tasks
            | some j ↦ elim (task_at tasks j).state [
              | dead code ↦ set (parent code) j (reaped (task_at (parent code) j))
              | _ ↦ tasks
            ]
          ]
          | _ ↦ tasks
        ])
    go empty = all
    go ready = all
    go running = all
    go (sleeping w) = all
    go (waiting c) = search (find_index (has_pid c) tasks)
    go (waiting_for_msg q p) = all
    go (dead code) = all

-- The loops of the scheduler over the sleepers, the alarms and the waiting parents keep the
-- numbers of the tasks.
pub wake-Numbered :
    (now : ℕ) (tasks : Tasks)
    → Numbered tasks
    → Numbered (reap_children (fire_alarms now (wake_sleepers now tasks)))
unfolding fire_alarms reap_children
wake-Numbered now tasks all =
    for_range-keeps Numbered reap_for reap_for-Numbered max_tasks 0
      (fire_alarms now (wake_sleepers now tasks))
      (for_range-keeps Numbered (fire_alarm now) (fire_alarm-Numbered now) max_tasks 0
        (wake_sleepers now tasks) (wake_sleepers-Numbered now tasks all))
