-- ===== src/Proc/Scheduler/Tests.antt =====
-- The theorems on the scheduler at a table of two tasks.
use oxide_os.Prelude.{
  ℕ, zero, suc, true, some, List, replicate, All-replicate, [], ◌∷◌, ◌≡◌, inl, inr, refl, set,
  arith,
}
use oxide_os.Proc.Task.{Task, empty_task, ready, sleeping, max_tasks}
use oxide_os.Proc.Scheduler.{Tasks, task_at, send_signal, choose}
use oxide_os.Proc.Scheduler.Choose.{choose_ready, ready_at, Chooses, place, choose-Chooses}
use oxide_os.Proc.Scheduler.Fair.{choices, Serves, choices_serve}
use oxide_os.Proc.Scheduler.Numbered.{Numbered}
use oxide_os.Proc.Scheduler.Signals.{Signals, send_signal_lem}

abbrev sleeper : Task
sleeper = record empty_task { state = sleeping 50; pid = 1 }

abbrev worker : Task
worker = record empty_task { state = ready; pid = 2 }

abbrev two : Tasks
two = sleeper ∷ worker ∷ []

two-Numbered : Numbered two
unfolding Numbered task_at empty_task
two-Numbered zero = inr refl
two-Numbered (suc zero) = inr refl
two-Numbered (suc (suc i)) = inl refl

send_signal_lem_example :
    (t : Task) × (send_signal two 1 14 ≡ (true, set two 0 t)) × Signals 14 (task_at two 0) t
unfolding task_at
send_signal_lem_example =
    send_signal_lem two 0 14 two-Numbered (omega arith) refl refl (omega arith) (omega arith)

choose_ready_example : (k : ℕ) × (choose 1 two ≡ some k) × (ready_at two k ≡ true)
choose_ready_example = choose_ready two 1 1 (omega arith) refl

choose-Chooses_example : Chooses two max_tasks (place 1 1) (choose 1 two)
choose-Chooses_example = choose-Chooses two 1

-- Eight choices at the same table.
abbrev rounds : List Tasks
rounds = replicate max_tasks two

choices_serve_example : Serves 1 (choices 1 rounds)
choices_serve_example =
    choices_serve 1 rounds 1 (omega arith)
      (All-replicate (λ tasks. ready_at tasks 1 ≡ true) max_tasks two refl) (omega arith)
