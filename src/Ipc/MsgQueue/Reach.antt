-- ===== src/Ipc/MsgQueue/Reach.antt =====
-- The invariant of the message queues over every sequence of calls, from the table at boot.
use oxide_os.Prelude.{
  ℕ, ◌≡◌, sym, ap, subst, ◌∙◌, inl, inr, false, List, [], ◌∷◌, length-replicate, get_or-replicate,
  All-replicate,
}
use oxide_os.Ipc.MsgQueue.{
  MessageQueue, Queues, new, queues_init, queue_at, max_queues, msgq_create, msgsnd, msgrcv,
  msgq_destroy,
}
use oxide_os.Ipc.MsgQueue.Valid.{IsValid, TableValid, new-IsValid}
use oxide_os.Ipc.MsgQueue.Table.{msgq_create_lem, msgsnd_refines, msgrcv_refines, msgq_destroy_lem}

boot_unused : (i : ℕ) → (queue_at queues_init i).in_use ≡ false
unfolding queue_at queues_init
boot_unused i = ap (λ (q : MessageQueue). q.in_use) (get_or-replicate max_queues i new)

pub queues_init-TableValid : TableValid queues_init
unfolding queues_init
queues_init-TableValid = record {
  slots = length-replicate max_queues new;
  each = All-replicate IsValid max_queues new new-IsValid;
  unique = λ i j a b e. cc (sym (unfold queues_init in boot_unused i) ∙ a);
}

-- A program's calls.
pub data Op : Type 0 where
  creates receives destroys : ℕ → Op
  sends : ℕ → ℕ → List ℕ → Op

unfoldable pub step : Queues → Op → Queues
step queues (creates id) = (msgq_create queues id).1
step queues (receives id) = (msgrcv queues id).2
step queues (destroys id) = (msgq_destroy queues id).1
step queues (sends id type_id payload) = (msgsnd queues id type_id payload).1

unfoldable pub run_ops : Queues → List Op → Queues
run_ops queues [] = queues
run_ops queues (op ∷ ops) = run_ops (step queues op) ops

create-TableValid :
    (queues : Queues) (id : ℕ) → TableValid queues → TableValid (msgq_create queues id).1
create-TableValid queues id v = elim (msgq_create_lem queues id v) [
  | inl (c, p, r, same) ↦ subst TableValid (sym same) v
  | inr (p, inl (r, changed)) ↦ changed.valid
  | inr (p, inr (r, same, full)) ↦ subst TableValid (sym same) v
]

step-TableValid : (queues : Queues) (op : Op) → TableValid queues → TableValid (step queues op)
unfolding step
step-TableValid queues (creates id) v = create-TableValid queues id v
step-TableValid queues (receives id) v = (msgrcv_refines queues id v).2.valid
step-TableValid queues (destroys id) v = (msgq_destroy_lem queues id v).0.valid
step-TableValid queues (sends id t payload) v = (msgsnd_refines queues id t payload v).3.valid

run_ops-TableValid :
    (queues : Queues) (ops : List Op) → TableValid queues → TableValid (run_ops queues ops)
unfolding run_ops
run_ops-TableValid queues [] v = v
run_ops-TableValid queues (op ∷ ops) v =
    run_ops-TableValid (step queues op) ops (step-TableValid queues op v)

-- From the table at boot, after any calls: no two queues in use have one name, every buffer has its
-- size, every position lies in it, and every message has all its bytes.
pub reachable-TableValid : (ops : List Op) → TableValid (run_ops queues_init ops)
reachable-TableValid ops = run_ops-TableValid queues_init ops queues_init-TableValid
