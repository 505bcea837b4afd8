-- ===== src/Ipc/MsgQueue.antt =====
-- kernel/src/kernel/ipc/ipc.rs: message queues with numeric names in a table of sixteen. The static
-- table is an argument and a result of each operation; a payload is a list of bytes.
pub mod Valid
pub mod Table
pub mod Slots
pub mod Reach
mod Tests
use oxide_os.Prelude.{
  ℕ, ◌+◌, ◌-◌, ◌%◌, Bool, true, false, not, ◌&&◌, Option, none, some, List, [], ◌∷◌, ◌++◌, ltb,
  ◌==◌, if◌then◌else◌, ℤ, pos, neg, length, get_or, set, drop, replicate, find_index,
}

abbrev pub max_queues : ℕ
max_queues = 16

abbrev pub max_msg_size : ℕ
max_msg_size = 256

abbrev pub msg_queue_depth : ℕ
msg_queue_depth = 64

-- The field `data` of the source is `bytes` here.
pub record Message : Type 0 where
  pub type_id : ℕ
  pub size : ℕ
  pub bytes : List ℕ

pub empty : Message
empty = record { type_id = 0; size = 0; bytes = replicate max_msg_size 0 }

pub record MessageQueue : Type 0 where
  pub id : ℕ
  pub in_use : Bool
  pub messages : List Message
  pub head : ℕ
  pub tail : ℕ

pub new : MessageQueue
unfolding empty
new = record {
  id = 0;
  in_use = false;
  messages = replicate msg_queue_depth empty;
  head = 0;
  tail = 0;
}

abbrev pub is_empty : MessageQueue → Bool
is_empty q = q.head == q.tail

abbrev pub is_full : MessageQueue → Bool
is_full q = (q.tail + 1) % msg_queue_depth == q.head

abbrev pub Queues : Type 0
Queues = List MessageQueue

pub queues_init : Queues
unfolding new
queues_init = replicate max_queues new

-- `QUEUES[i]`; every index that the code uses is inside the table.
pub queue_at : Queues → ℕ → MessageQueue
unfolding new
queue_at queues i = get_or queues i new

-- The test of the loops: is this the queue named `id`?
abbrev pub named : ℕ → MessageQueue → Bool
named id q = q.in_use && q.id == id

abbrev pub is_unused : MessageQueue → Bool
is_unused q = not q.in_use

-- A slot taken for the queue `id`; the messages in it stay.
pub claimed : MessageQueue → ℕ → MessageQueue
claimed q id = record q { in_use = true; id = id; head = 0; tail = 0 }

pub msgq_create : Queues → ℕ → ℤ × Queues
unfolding queue_at claimed find_index
msgq_create queues id = elim (find_index (named id) queues) [
  | some i ↦ (pos id, queues)
  | none ↦ elim (find_index is_unused queues) [
    | some i ↦ (pos id, set queues i (claimed (queue_at queues i) id))
    | none ↦ (neg 4, queues)
  ]
]

-- `copy_from_slice` into the first bytes of the slot: those behind them stay.
pub filled : Message → ℕ → List ℕ → Message
filled old type_id payload = record {
  type_id = type_id;
  size = length payload;
  bytes = payload ++ drop (length payload) old.bytes;
}

pub enqueued : MessageQueue → ℕ → List ℕ → MessageQueue
unfolding filled empty
enqueued q type_id payload = record q {
  messages = set q.messages q.tail (filled (get_or q.messages q.tail empty) type_id payload);
  tail = (q.tail + 1) % msg_queue_depth;
}

pub msgsnd : Queues → ℕ → ℕ → List ℕ → ℤ × Queues
unfolding queue_at enqueued find_index
msgsnd queues id type_id payload =
    if ltb max_msg_size (length payload)
    then (neg 22, queues)
    else elim (find_index (named id) queues) [
      | none ↦ (neg 2, queues)
      | some i ↦
          if is_full (queue_at queues i)
          then (neg 6, queues)
          else (pos 0, set queues i (enqueued (queue_at queues i) type_id payload))
    ]

pub dequeued : MessageQueue → MessageQueue
dequeued q = record q { head = (q.head + 1) % msg_queue_depth }

-- The option is what is stored through `msg_out`.
unfoldable pub msgrcv : Queues → ℕ → ℤ × Option Message × Queues
unfolding queue_at dequeued find_index empty
msgrcv queues id = elim (find_index (named id) queues) [
  | none ↦ (neg 2, none, queues)
  | some i ↦
      let q = queue_at queues i in
      if is_empty q
      then (neg 6, none, queues)
      else (pos 0, some (get_or q.messages q.head empty), set queues i (dequeued q))
]

pub released : MessageQueue → MessageQueue
released q = record q { in_use = false; head = 0; tail = 0 }

pub msgq_destroy : Queues → ℕ → ℤ × Queues
unfolding queue_at released find_index
msgq_destroy queues id = elim (find_index (named id) queues) [
  | none ↦ (neg 2, queues)
  | some i ↦ (pos 0, set queues i (released (queue_at queues i)))
]

pub msgq_len : Queues → ℕ → ℤ
unfolding queue_at find_index
msgq_len queues id = elim (find_index (named id) queues) [
  | none ↦ neg 2
  | some i ↦
      let q = queue_at queues i in pos ((q.tail + msg_queue_depth - q.head) % msg_queue_depth)
]
