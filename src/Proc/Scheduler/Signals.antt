-- ===== src/Proc/Scheduler/Signals.antt =====
-- send_signal on a table whose tasks have their numbers: the task that a number means.
use Prim.Native.Nat.{bit_or}
use oxide_os.Prelude.{
  ◌-◌, ◌^◌, pos, ℕ, ◌+◌, ◌<◌, true, false, ◌||◌, some, ◌≡◌, ◌≢◌, ◌⊎◌, inl, inr, refl, sym, ap, ◌∙◌,
  leb, ◌==◌, ==_iff, ==_self, if◌then◌else◌, Bool-cases, Option-cases, length, set, find_index,
  find_index-some, find_index-none, arith,
}
use oxide_os.Proc.Task.{ready, dead, is_gone, Task, empty_task, nsig, sigkill}
use oxide_os.Proc.Scheduler.{
  Tasks, task_at, has_pid, is_sleeping, signalled, killed_by, send_signal,
}
use oxide_os.Proc.Scheduler.Numbered.{NumberedAt, Numbered}

numbered-eq : (i pid : ℕ) (t : Task) → 0 < pid → t.pid ≡ pid → NumberedAt i t → i + 1 ≡ pid
numbered-eq i pid t h e (inl z) = absurd (omega (arith, e, z, h))
numbered-eq i pid t h e (inr n) = sym n ∙ e

-- The search for a number finds the index before it.
pub find_pid :
    (tasks : Tasks) (i : ℕ)
    → Numbered tasks
    → i < length tasks
    → (task_at tasks i).pid ≡ i + 1
    → find_index (has_pid (i + 1)) tasks ≡ some i
unfolding Numbered task_at
find_pid tasks i all h e = elim (Option-cases (find_index (has_pid (i + 1)) tasks)) [
  | inl none_found ↦ absurd (
      clash (
        sym (ap (λ n. n == (i + 1)) e ∙ ==_self (i + 1))
        ∙ find_index-none (has_pid (i + 1)) empty_task tasks none_found i h))
  | inr (j, at) ↦
      let here = (find_index-some (has_pid (i + 1)) empty_task tasks at).1 in
      at
      ∙ ap some (
          down j (
            numbered-eq j (i + 1) (task_at tasks j) (omega arith)
              ((==_iff (task_at tasks j).pid (i + 1)).0 here) (all j)))
]
  where
    clash : true ≢ false
    clash q = cc

    down : (j : ℕ) → j + 1 ≡ i + 1 → j ≡ i
    down j q = omega (arith, q)

-- What an accepted signal makes of a task.
abbrev pub Signals : ℕ → Task → Task → Type 0
Signals signum t t' =
    ((signum ≡ sigkill) × (t'.state ≡ dead (pos 137)) × (t'.pending_signals ≡ t.pending_signals))
    ⊎ ((signum ≢ sigkill)
        × (t'.pending_signals ≡ bit_or t.pending_signals (2 ^ (signum - 1)))
        × (t'.state ≡ (if is_sleeping t.state then ready else t.state)))

-- A signal from 1 to 31 that is sent to an unfinished task is accepted: SIGKILL ends the task with
-- 128 + 9, and any other signal is then pending and wakes the task if it sleeps. No other task
-- changes.
pub send_signal_lem :
    (tasks : Tasks) (i signum : ℕ)
    → Numbered tasks
    → i < length tasks
    → (task_at tasks i).pid ≡ i + 1
    → is_gone (task_at tasks i).state ≡ false
    → 0 < signum
    → signum < nsig
    → (t : Task) × (send_signal tasks (i + 1) signum ≡ (true, set tasks i t))
      × Signals signum (task_at tasks i) t
unfolding send_signal signalled killed_by
send_signal_lem tasks i signum all h e g p q = elim (Bool-cases (signum == sigkill)) [
  | inl k ↦ (
    killed_by signum (task_at tasks i),
    simp (send_signal, legal, find_pid tasks i all h e, g, k) refl,
    inl (
      (==_iff signum sigkill).0 k,
      ap (λ n. dead (pos (128 + n))) ((==_iff signum sigkill).0 k),
      refl,
    ),
  )
  | inr k ↦ (
    signalled signum (task_at tasks i),
    simp (send_signal, legal, find_pid tasks i all h e, g, k) refl,
    inr (ground (arith, k), refl, refl),
  )
]
  where
    legal : (signum == 0 || leb nsig signum) ≡ false
    legal = ground arith

-- A signal to a finished task or an unused slot, or one that is not from 1 to 31, is refused and
-- changes nothing.
pub send_signal_refused :
    (tasks : Tasks) (i signum : ℕ)
    → Numbered tasks
    → i < length tasks
    → (task_at tasks i).pid ≡ i + 1
    → (is_gone (task_at tasks i).state ≡ true) ⊎ ((signum ≡ 0) ⊎ (31 < signum))
    → send_signal tasks (i + 1) signum ≡ (false, tasks)
unfolding send_signal
send_signal_refused tasks i signum all h e bad =
    elim (Bool-cases (signum == 0 || leb nsig signum)) [
      | inl illegal ↦ simp (send_signal, illegal) refl
      | inr legal ↦ simp (send_signal, legal, find_pid tasks i all h e, gone legal bad) refl
    ]
  where
    gone :
        (signum == 0 || leb nsig signum) ≡ false
        → (is_gone (task_at tasks i).state ≡ true) ⊎ ((signum ≡ 0) ⊎ (31 < signum))
        → is_gone (task_at tasks i).state ≡ true
    gone legal (inl g) = g
    gone legal (inr (inl z)) = absurd (ground (arith, legal, z))
    gone legal (inr (inr z)) = absurd (ground (arith, legal, z))
