-- ===== src/Proc/Scheduler/Choose.antt =====
-- The round-robin choice of the next task.
use oxide_os.Prelude.{
  ℕ, zero, suc, ◌+◌, ◌-◌, ◌%◌, ◌<◌, Bool, true, false, Option, none, some, ◌≡◌, inl, inr, refl, sym,
  ap, subst, ◌∙◌, Bool-cases, get_or, arith,
}
use oxide_os.Proc.Task.{is_ready, max_tasks, empty_task}
use oxide_os.Proc.Scheduler.{Tasks, task_at, choose_from, choose}

-- Whether the task at an index is ready, and the index `k` places round from another one.
abbrev pub ready_at : Tasks → ℕ → Bool
ready_at tasks i = is_ready (get_or tasks i empty_task).state

abbrev pub place : ℕ → ℕ → ℕ
place start k = (start + k) % max_tasks

-- Of the `n` places from `start` on none is ready, or the index is the place of the first that is.
pub data Chooses (tasks : Tasks) (n start : ℕ) : Option ℕ → Type 0 where
  nobody : ((k : ℕ) → k < n → ready_at tasks (place start k) ≡ false) → Chooses tasks n start none
  next :
      (k : ℕ)
      → k < n
      → ready_at tasks (place start k) ≡ true
      → ((j : ℕ) → j < k → ready_at tasks (place start j) ≡ false)
      → Chooses tasks n start (some (place start k))

place-suc : (start k : ℕ) → place (place start 1) k ≡ place start (suc k)
place-suc start k = omega arith

place-zero : (start : ℕ) → start < max_tasks → place start 0 ≡ start
place-zero start h = omega arith

module _ (tasks : Tasks) (start n : ℕ) where
  later :
      ready_at tasks (place start 0) ≡ false
      → (k : ℕ) → ((j : ℕ) → j < k → ready_at tasks (place (place start 1) j) ≡ false)
      → (j : ℕ) → j < suc k
      → ready_at tasks (place start j) ≡ false
  later e k all zero h = e
  later e k all (suc j) h = ap (ready_at tasks) (sym (place-suc start j)) ∙ all j (omega arith)

  pass :
      (o : Option ℕ)
      → ready_at tasks (place start 0) ≡ false
      → Chooses tasks n (place start 1) o
      → Chooses tasks (suc n) start o
  pass none e (nobody all) = nobody (later e n all)
  pass (some _) e (next k h t before) =
      subst (λ i. Chooses tasks (suc n) start (some i)) (sym (place-suc start k))
        (next (suc k) (omega arith) (ap (ready_at tasks) (sym (place-suc start k)) ∙ t)
          (later e k before))

choose_from-Chooses :
    (tasks : Tasks) (n start : ℕ)
    → start < max_tasks
    → Chooses tasks n start (choose_from n start tasks)
unfolding choose_from task_at
choose_from-Chooses tasks zero start h = nobody (λ k l. absurd (omega arith))
choose_from-Chooses tasks (suc n) start h = elim (Bool-cases (ready_at tasks start)) [
  | inl e ↦ simp e (
      subst (λ i. Chooses tasks (suc n) start (some i)) (place-zero start h)
        (next 0 (omega arith) (ap (ready_at tasks) (place-zero start h) ∙ e)
          (λ j l. absurd (omega arith))))
  | inr e ↦ simp e (
      pass tasks start n (choose_from n (place start 1) tasks)
        (ap (ready_at tasks) (place-zero start h) ∙ e)
        (choose_from-Chooses tasks n (place start 1) (omega arith)))
]

-- The scheduler chooses the first ready task of the table in the round from the task behind the
-- current one to the current one, and none exactly when that round of all eight has none.
pub choose-Chooses :
    (tasks : Tasks) (current : ℕ) → Chooses tasks max_tasks (place current 1) (choose current tasks)
unfolding choose
choose-Chooses tasks current = choose_from-Chooses tasks max_tasks (place current 1) (omega arith)

-- A ready task anywhere in the table is not overlooked.
pub choose_ready :
    (tasks : Tasks) (current i : ℕ)
    → i < max_tasks
    → ready_at tasks i ≡ true
    → (k : ℕ) × (choose current tasks ≡ some k) × (ready_at tasks k ≡ true)
choose_ready tasks current i h e = go (choose current tasks) (choose-Chooses tasks current)
  where
    start : ℕ
    start = place current 1

    distance : ℕ
    distance = (i + max_tasks - start) % max_tasks

    there : place start distance ≡ i
    there = omega arith

    clash : true ≡ false → (k : ℕ) × (◌≡◌ {A = Option ℕ} none (some k)) × (ready_at tasks k ≡ true)
    clash q = cc

    go :
        (o : Option ℕ)
        → Chooses tasks max_tasks start o
        → (k : ℕ) × (o ≡ some k) × (ready_at tasks k ≡ true)
    go none (nobody all) =
        clash (sym e ∙ ap (ready_at tasks) (sym there) ∙ all distance (omega arith))
    go (some _) (next k l t before) = (place start k, refl, t)
