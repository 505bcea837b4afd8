-- ===== src/Ipc/MsgQueue/Table.antt =====
-- The operations on message queues against their specification: each name has a bounded queue of
-- typed payloads, or does not exist.
use oxide_os.Prelude.{
  ℕ, ◌+◌, ◌-◌, ◌%◌, ◌≡◌, ◌≢◌, ◌<◌, refl, sym, ap, subst, ◌∙◌, true, false, Option, none, some, List,
  [], ◌∷◌, ◌++◌, length, get_or, set, take, take-length_append, drop, ltb, ◌==◌, if◌then◌else◌,
  ==_iff, ℤ, pos, neg, Bool-cases, Option-cases, ◌⊎◌, inl, inr, find_index, find_index-some,
  find_index-none, arith, All-get_or,
}
use oxide_os.Ipc.MsgQueue.{
  Message, MessageQueue, Queues, empty, new, queue_at, named, is_unused, is_full, filled, enqueued,
  dequeued, claimed, released, msgq_create, msgsnd, msgrcv, msgq_destroy, msgq_len, max_msg_size,
  msg_queue_depth, max_queues,
}
use oxide_os.Ipc.MsgQueue.Valid.{
  IsValid, TableValid, contents, length-contents, enqueued-IsValid, dequeued-IsValid,
  claimed-IsValid, released-IsValid, contents-enqueued, contents-dequeued, contents_of_empty,
  contents-claimed,
}
use oxide_os.Ipc.MsgQueue.Slots.{
  pending, pending_found, pending_absent, found_queue, Changed, unchanged, same_name-Changed,
  unused-Changed, claimed-Changed,
}

slot-IsValid :
    (queues : Queues) (id i : ℕ)
    → TableValid queues
    → find_index (named id) queues ≡ some i
    → IsValid (queue_at queues i)
unfolding queue_at
slot-IsValid queues id i v e = All-get_or IsValid queues i new (found_queue queues id i e).0 v.each

-- A message of a type with a payload, whatever bytes stand behind the payload.
abbrev pub Carries : ℕ → List ℕ → Message → Type 0
Carries type_id payload m =
    (m.type_id ≡ type_id) × (m.size ≡ length payload) × (take (length payload) m.bytes ≡ payload)

-- What a send of `m` with that payload returns and leaves, for a queue that holds `c`.
abbrev pub send_spec : List ℕ → Message → Option (List Message) → ℤ × Option (List Message)
send_spec payload m c = if ltb max_msg_size (length payload) then (neg 22, c) else elim c [
  | none ↦ (neg 2, none)
  | some ms ↦
      if length ms == msg_queue_depth - 1 then (neg 6, some ms) else (pos 0, some (ms ++ (m ∷ [])))
]

is_full-length :
    {q : MessageQueue} → IsValid q → is_full q ≡ (length (contents q) == msg_queue_depth - 1)
is_full-length {q} v = ground (arith, length-contents q)

sent :
    (queues : Queues) (id i t : ℕ) (payload : List ℕ)
    → TableValid queues
    → find_index (named id) queues ≡ some i
    → ltb max_msg_size (length payload) ≡ false
    → (let q = queue_at queues i in (q.tail + 1) % msg_queue_depth ≢ q.head)
    → let q = queue_at queues i in
      Changed queues id
        (some (contents q ++ (filled (get_or q.messages q.tail empty) t payload ∷ [])))
        (set queues i (enqueued q t payload))
sent queues id i t payload v e short room =
    let q = queue_at queues i in
    let valid = slot-IsValid queues id i v e in
    let at = found_queue queues id i e in
    rw (← contents-enqueued t payload valid room) (
      same_name-Changed queues id i (enqueued q t payload) v e (unfold enqueued in at.1)
        (unfold enqueued in at.2) (enqueued-IsValid t payload valid (ground arith)))

not_full : (q : MessageQueue) → is_full q ≡ false → (q.tail + 1) % msg_queue_depth ≢ q.head
not_full q e = ground arith

filled-Carries :
    (old : Message) (type_id : ℕ) (payload : List ℕ)
    → Carries type_id payload (filled old type_id payload)
unfolding filled
filled-Carries old t payload =
    (refl, refl, take-length_append payload (drop (length payload) old.bytes))

-- On a well-formed table a send fails with EINVAL for a payload of more than 256 bytes, else with
-- ENOENT where the name does not exist, else with EAGAIN where 63 messages wait, and changes nothing
-- then. Otherwise a message with that type, size and payload goes behind those that wait under that
-- name. Other names are not touched.
pub msgsnd_refines :
    (queues : Queues) (id type_id : ℕ) (payload : List ℕ)
    → TableValid queues
    → (m : Message) × Carries type_id payload m
      × ((msgsnd queues id type_id payload).0 ≡ (send_spec payload m (pending queues id)).0)
      × Changed queues id
          (send_spec payload m (pending queues id)).1
          (msgsnd queues id type_id payload).1
unfolding msgsnd
msgsnd_refines queues id t payload v = elim (Bool-cases (ltb max_msg_size (length payload))) [
  | inl long ↦ simp long (any, fits, refl, unchanged queues id v refl)
  | inr short ↦ elim (Option-cases (find_index (named id) queues)) [
    | inl e ↦
        simp (short, e, pending_absent queues id e)
          (any, fits, refl, unchanged queues id v (pending_absent queues id e))
    | inr (i, e) ↦
        let q = queue_at queues i in
        let valid = slot-IsValid queues id i v e in
        let old = get_or q.messages q.tail empty in
        elim (Bool-cases (is_full q)) [
          | inl full ↦
              simp (short, e, pending_found queues id i e, full, sym (is_full-length valid) ∙ full)
                (any, fits, refl, unchanged queues id v (pending_found queues id i e))
          | inr room ↦
              simp (short, e, pending_found queues id i e, room, sym (is_full-length valid) ∙ room)
                (
                  filled old t payload,
                  filled-Carries old t payload,
                  refl,
                  sent queues id i t payload v e short (not_full q room),
                )
        ]
  ]
]
  where
    any : Message
    any = filled empty t payload

    fits : Carries t payload any
    fits = filled-Carries empty t payload

-- What a receive from a queue that holds `c` returns, stores and leaves.
abbrev pub recv_spec : Option (List Message) → ℤ × Option Message × Option (List Message)
recv_spec none = (neg 2, none, none)
recv_spec (some []) = (neg 6, none, some [])
recv_spec (some (m ∷ ms)) = (pos 0, some m, some ms)

-- A receive returns the message that has waited longest under its name and takes it out; it fails
-- with EAGAIN where none waits, and with ENOENT where the name does not exist, and changes nothing
-- then. Other names are not touched.
pub msgrcv_refines :
    (queues : Queues) (id : ℕ)
    → TableValid queues
    → let (r, m, after) = msgrcv queues id in
      let (r', m', c') = recv_spec (pending queues id) in
      (r ≡ r') × (m ≡ m') × Changed queues id c' after
unfolding msgrcv
msgrcv_refines queues id v = elim (Option-cases (find_index (named id) queues)) [
  | inl e ↦
      simp (e, msgrcv, pending_absent queues id e)
        (refl, refl, unchanged queues id v (pending_absent queues id e))
  | inr (i, e) ↦
      let q = queue_at queues i in
      let valid = slot-IsValid queues id i v e in
      let at = found_queue queues id i e in
      elim (Bool-cases (q.head == q.tail)) [
        | inl none_left ↦
            let c = contents_of_empty valid ((==_iff q.head q.tail).0 none_left) in
            simp (e, msgrcv, pending_found queues id i e, none_left, c)
              (refl, refl, unchanged queues id v (pending_found queues id i e ∙ ap some c))
        | inr more ↦
            simp
              (
                e,
                msgrcv,
                pending_found queues id i e,
                more,
                contents-dequeued valid (ne_of q.head q.tail more),
              )
              (
                refl,
                refl,
                same_name-Changed queues id i (dequeued q) v e (unfold dequeued in at.1)
                    (unfold dequeued in at.2) (dequeued-IsValid valid),
              )
      ]
]
  where
    ne_of : (a b : ℕ) → (a == b) ≡ false → a ≢ b
    ne_of a b e = ground arith

-- A create of a name that exists returns it and changes nothing, also the messages that wait. A new
-- name takes a free slot, with no message waiting, or fails with ENOMEM when all sixteen are taken,
-- which changes nothing. Other names are not touched.
pub msgq_create_lem :
    (queues : Queues) (id : ℕ)
    → TableValid queues
    → let (r, after) = msgq_create queues id in
      ((c : List Message) × (pending queues id ≡ some c) × (r ≡ pos id) × (after ≡ queues))
      ⊎ ((pending queues id ≡ none)
          × (((r ≡ pos id) × Changed queues id (some []) after)
              ⊎ ((r ≡ neg 4)
                  × (after ≡ queues)
                  × ((k : ℕ) → k < max_queues → (queue_at queues k).in_use ≡ true))))
unfolding msgq_create
msgq_create_lem queues id v = elim (Option-cases (find_index (named id) queues)) [
  | inr (i, e) ↦
      simp (e, msgq_create)
        (inl (contents (queue_at queues i), pending_found queues id i e, refl, refl))
  | inl e ↦ elim (Option-cases (find_index is_unused queues)) [
    | inl full ↦
        simp (e, full, msgq_create) (inr (pending_absent queues id e, inr (refl, refl, taken full)))
    | inr (i, free) ↦
        simp (e, free, msgq_create) (inr (pending_absent queues id e, inl (refl, opened i e free)))
  ]
]
  where
    in_use_of : (q : MessageQueue) → is_unused q ≡ false → q.in_use ≡ true
    in_use_of q e = ground arith

    taken :
        find_index is_unused queues ≡ none
        → (k : ℕ) → k < max_queues
        → (queue_at queues k).in_use ≡ true
    taken full k h =
        in_use_of (queue_at queues k)
          (unfold queue_at in find_index-none is_unused new queues full k (omega arith))

    opened :
        (i : ℕ)
        → find_index (named id) queues ≡ none
        → find_index is_unused queues ≡ some i
        → Changed queues id (some []) (set queues i (claimed (queue_at queues i) id))
    opened i e free =
        subst (λ c. Changed queues id (some c) (set queues i (claimed (queue_at queues i) id)))
          (contents-claimed (queue_at queues i) id)
          (claimed-Changed queues id i (claimed (queue_at queues i) id) v e free
            (unfold claimed in refl) (unfold claimed in refl)
            (claimed-IsValid id (
              unfold queue_at in
              All-get_or IsValid queues i new (find_index-some is_unused new queues free).0
                v.each)))

-- A destroy removes the name, with what waits there, or fails with ENOENT where there is none and
-- changes nothing. Other names are not touched, and the name is free again.
pub msgq_destroy_lem :
    (queues : Queues) (id : ℕ)
    → TableValid queues
    → let (r, after) = msgq_destroy queues id in
      Changed queues id none after
      × (r ≡ elim (pending queues id) [ none ↦ neg 2 | some _ ↦ pos 0 ])
unfolding msgq_destroy
msgq_destroy_lem queues id v = elim (Option-cases (find_index (named id) queues)) [
  | inl e ↦
      simp (e, msgq_destroy, pending_absent queues id e)
        (unchanged queues id v (pending_absent queues id e), refl)
  | inr (i, e) ↦
      simp (e, msgq_destroy, pending_found queues id i e)
        (
          unused-Changed queues id i (released (queue_at queues i)) v e (unfold released in refl)
              (released-IsValid (slot-IsValid queues id i v e)),
          refl,
        )
]

-- The length of a queue is the number of messages that wait, or ENOENT where the name does not exist.
pub msgq_len_lem :
    (queues : Queues) (id : ℕ)
    → msgq_len queues id ≡ elim (pending queues id) [ none ↦ neg 2 | some ms ↦ pos (length ms) ]
unfolding msgq_len
msgq_len_lem queues id = elim (Option-cases (find_index (named id) queues)) [
  | inl e ↦ simp (e, msgq_len, pending_absent queues id e)
  | inr (i, e) ↦
      simp (e, msgq_len, pending_found queues id i e, length-contents (queue_at queues i))
]
