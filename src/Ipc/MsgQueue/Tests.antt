-- ===== src/Ipc/MsgQueue/Tests.antt =====
-- Message queues at concrete inputs.
use oxide_os.Prelude.{◌≡◌, refl, none, some, [], ◌∷◌, pos, neg, length}
use oxide_os.Ipc.MsgQueue.{Message, Queues, queues_init, msgq_create, msgsnd, msgrcv, msgq_len}
use oxide_os.Ipc.MsgQueue.Valid.{TableValid}
use oxide_os.Ipc.MsgQueue.Slots.{pending, Changed}
use oxide_os.Ipc.MsgQueue.Table.{
  send_spec, recv_spec, Carries, msgsnd_refines, msgrcv_refines, msgq_len_lem,
}
use oxide_os.Ipc.MsgQueue.Reach.{step, run_ops, creates, sends, reachable-TableValid}

-- Queue 5 with one message.
abbrev one_message : Queues
one_message = run_ops queues_init (creates 5 ∷ sends 5 1 (65 ∷ 66 ∷ []) ∷ [])

one_message-TableValid : TableValid one_message
one_message-TableValid = reachable-TableValid (creates 5 ∷ sends 5 1 (65 ∷ 66 ∷ []) ∷ [])

queue_runs :
    (msgq_len one_message 5 ≡ pos 1)
    × (msgq_len one_message 6 ≡ neg 2)
    × ((msgrcv one_message 5).0 ≡ pos 0)
    × ((msgrcv queues_init 5).0 ≡ neg 2)
unfolding run_ops step msgq_create msgsnd queues_init msgq_len msgrcv
queue_runs = (refl, refl, refl, refl)

msgsnd_refines_example :
    (m : Message) × Carries 2 (67 ∷ []) m
    × ((msgsnd one_message 5 2 (67 ∷ [])).0 ≡ (send_spec (67 ∷ []) m (pending one_message 5)).0)
    × Changed one_message 5
        (send_spec (67 ∷ []) m (pending one_message 5)).1
        (msgsnd one_message 5 2 (67 ∷ [])).1
msgsnd_refines_example = msgsnd_refines one_message 5 2 (67 ∷ []) one_message-TableValid

msgrcv_refines_example :
    let (r, m, after) = msgrcv one_message 5 in
    let (r', m', c') = recv_spec (pending one_message 5) in
    (r ≡ r') × (m ≡ m') × Changed one_message 5 c' after
msgrcv_refines_example = msgrcv_refines one_message 5 one_message-TableValid

msgq_len_lem_example :
    msgq_len one_message 5
    ≡ elim (pending one_message 5) [ none ↦ neg 2 | some ms ↦ pos (length ms) ]
msgq_len_lem_example = msgq_len_lem one_message 5

reachable-TableValid_example :
    TableValid (run_ops queues_init (creates 5 ∷ sends 5 1 (65 ∷ []) ∷ []))
reachable-TableValid_example = reachable-TableValid (creates 5 ∷ sends 5 1 (65 ∷ []) ∷ [])
