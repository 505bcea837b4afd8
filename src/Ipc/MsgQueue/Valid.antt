-- ===== src/Ipc/MsgQueue/Valid.antt =====
-- The invariant of the message queues: buffers of the right size, positions inside them, and no
-- two queues of one name.
use oxide_os.Prelude.{
  ℕ, ◌+◌, ◌-◌, ◌%◌, ◌≡◌, ◌≢◌, ◌<◌, ◌≤◌, ap, ◌∙◌, true, List, [], ◌∷◌, ◌++◌, length, length-set,
  length-replicate, length-append, length-drop, get_or, arith, All, All-set, All-get_or,
  All-replicate, drop,
}
use oxide_os.Prelude.Circular
use oxide_os.Ipc.MsgQueue.{
  Message, MessageQueue, Queues, empty, new, queue_at, filled, enqueued, dequeued, claimed,
  released, max_msg_size, msg_queue_depth, max_queues,
}

abbrev pub IsWhole : Message → Type 0
IsWhole m = length m.bytes ≡ max_msg_size

pub record IsValid (q : MessageQueue) : Type 0 where
  pub storage : length q.messages ≡ msg_queue_depth
  pub head_in : q.head < msg_queue_depth
  pub tail_in : q.tail < msg_queue_depth
  pub whole : All IsWhole q.messages

-- No name is used twice.
abbrev pub IsUnique : Queues → Type 0
IsUnique queues =
    (i j : ℕ)
    → (queue_at queues i).in_use ≡ true
    → (queue_at queues j).in_use ≡ true
    → (queue_at queues i).id ≡ (queue_at queues j).id
    → i ≡ j

pub record TableValid (queues : Queues) : Type 0 where
  pub slots : length queues ≡ max_queues
  pub each : All IsValid queues
  pub unique : IsUnique queues

unfoldable pub contents : MessageQueue → List Message
contents q = Circular.contents empty msg_queue_depth q.messages q.head q.tail

empty-IsWhole : IsWhole empty
unfolding empty
empty-IsWhole = length-replicate {A = ℕ} max_msg_size 0

pub new-IsValid : IsValid new
unfolding new
new-IsValid = record {
  storage = length-replicate msg_queue_depth empty;
  head_in = omega arith;
  tail_in = omega arith;
  whole = All-replicate IsWhole msg_queue_depth empty empty-IsWhole;
}

filled-IsWhole :
    (old : Message) (t : ℕ) (payload : List ℕ)
    → IsWhole old
    → length payload ≤ max_msg_size
    → IsWhole (filled old t payload)
unfolding filled
filled-IsWhole old t payload w h =
    length-append payload (drop (length payload) old.bytes)
    ∙ omega (arith, length-drop (length payload) old.bytes)

pub enqueued-IsValid :
    {q : MessageQueue} (t : ℕ) (payload : List ℕ)
    → IsValid q
    → length payload ≤ max_msg_size
    → IsValid (enqueued q t payload)
unfolding enqueued
enqueued-IsValid {q} t payload v h = record {
  storage = length-set q.messages q.tail _ ∙ v.storage;
  head_in = v.head_in;
  tail_in = omega arith;
  whole =
      All-set IsWhole q.messages q.tail _
        (filled-IsWhole (get_or q.messages q.tail empty) t payload
          (All-get_or IsWhole q.messages q.tail empty (omega arith) v.whole) h)
        v.whole;
}

pub dequeued-IsValid : {q : MessageQueue} → IsValid q → IsValid (dequeued q)
unfolding dequeued
dequeued-IsValid v = record {
  storage = v.storage;
  head_in = omega arith;
  tail_in = v.tail_in;
  whole = v.whole;
}

pub claimed-IsValid : {q : MessageQueue} (id : ℕ) → IsValid q → IsValid (claimed q id)
unfolding claimed
claimed-IsValid id v = record {
  storage = v.storage;
  head_in = omega arith;
  tail_in = omega arith;
  whole = v.whole;
}

pub released-IsValid : {q : MessageQueue} → IsValid q → IsValid (released q)
unfolding released
released-IsValid v = record {
  storage = v.storage;
  head_in = omega arith;
  tail_in = omega arith;
  whole = v.whole;
}

pub length-contents :
    (q : MessageQueue) → length (contents q) ≡ (q.tail + msg_queue_depth - q.head) % msg_queue_depth
unfolding contents
length-contents q = Circular.length-contents empty msg_queue_depth q.messages q.head q.tail

pub contents-enqueued :
    {q : MessageQueue} (t : ℕ) (payload : List ℕ)
    → IsValid q
    → (q.tail + 1) % msg_queue_depth ≢ q.head
    → contents (enqueued q t payload)
      ≡ contents q ++ (filled (get_or q.messages q.tail empty) t payload ∷ [])
unfolding contents enqueued
contents-enqueued {q} t payload v ne =
    Circular.contents-push empty msg_queue_depth q.messages _ q.head q.tail (omega arith) v.head_in
      v.tail_in ne

pub contents-dequeued :
    {q : MessageQueue}
    → IsValid q
    → q.head ≢ q.tail
    → contents q ≡ get_or q.messages q.head empty ∷ contents (dequeued q)
unfolding contents dequeued
contents-dequeued {q} v ne =
    Circular.contents-pop empty msg_queue_depth q.messages q.head q.tail v.head_in v.tail_in ne

pub contents_of_empty : {q : MessageQueue} → IsValid q → q.head ≡ q.tail → contents q ≡ []
unfolding contents
contents_of_empty {q} v e =
    ap (λ h. Circular.contents empty msg_queue_depth q.messages h q.tail) e
    ∙ Circular.contents_empty empty msg_queue_depth q.messages q.tail v.tail_in

pub contents-claimed : (q : MessageQueue) (id : ℕ) → contents (claimed q id) ≡ []
unfolding contents claimed
contents-claimed q id = Circular.contents_empty empty msg_queue_depth q.messages 0 (omega arith)
