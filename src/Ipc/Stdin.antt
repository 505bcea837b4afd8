-- ===== src/Ipc/Stdin.antt =====
-- kernel/src/kernel/ipc/stdin.rs: the ring that the keyboard interrupt fills and programs drain.
mod Tests
use oxide_os.Prelude.{
  ℕ, zero, suc, ◌+◌, ◌-◌, ◌%◌, ◌≡◌, ◌≢◌, ◌<◌, ◌⊎◌, refl, sym, ap, ap₂, ◌∙◌, inl, inr, Bool, true,
  false, Option, none, some, List, [], ◌∷◌, ◌++◌, append-nil, append_assoc, length, length-append,
  length-set, length-replicate, get_or, set, replicate, ◌==◌, ltb, if◌then◌else◌, Bool-cases, arith,
}
use oxide_os.Prelude.Circular

abbrev pub buf_size : ℕ
buf_size = 256

-- The three statics BUF, HEAD and TAIL.
pub record Ring : Type 0 where
  pub buf : List ℕ
  pub head : ℕ
  pub tail : ℕ

unfoldable pub ring_init : Ring
ring_init = record { buf = replicate buf_size 0; head = 0; tail = 0 }

-- A byte that finds the ring full is dropped.
pub push : Ring → ℕ → Ring
push r ch =
    let next = (r.tail + 1) % buf_size in
    if next == r.head then r else record r { buf = set r.buf r.tail ch; tail = next }

pub pop : Ring → Option ℕ × Ring
pop r =
    if r.head == r.tail
    then (none, r)
    else (some (get_or r.buf r.head 0), record r { head = (r.head + 1) % buf_size })

pub available : Ring → ℕ
available r = (r.tail + buf_size - r.head) % buf_size

pub record IsValid (r : Ring) : Type 0 where
  pub storage : length r.buf ≡ buf_size
  pub head_in : r.head < buf_size
  pub tail_in : r.tail < buf_size

unfoldable pub contents : Ring → List ℕ
contents r = Circular.contents 0 buf_size r.buf r.head r.tail

-- `available` counts the bytes that wait.
pub available-length : (r : Ring) → available r ≡ length (contents r)
unfolding available contents
available-length r = sym (Circular.length-contents 0 buf_size r.buf r.head r.tail)

push-full : (r : Ring) (ch : ℕ) → (r.tail + 1) % buf_size ≡ r.head → push r ch ≡ r
unfolding push
push-full r ch e = ground arith

push-room :
    (r : Ring) (ch : ℕ)
    → (r.tail + 1) % buf_size ≢ r.head
    → push r ch ≡ record r { buf = set r.buf r.tail ch; tail = (r.tail + 1) % buf_size }
unfolding push
push-room r ch ne = ground arith

pub push-IsValid : {r : Ring} (ch : ℕ) → IsValid r → IsValid (push r ch)
unfolding push
push-IsValid {r} ch v = ground (arith, length-set r.buf r.tail ch)

pop-IsValid : {r : Ring} → IsValid r → IsValid (pop r).1
unfolding pop
pop-IsValid {r} v = ground arith

-- The keyboard and the programs, as a sequence of events.
pub data Event : Type 0 where
  key : ℕ → Event
  getchar : Event

-- The bytes that the programs get, and the ring after the events.
pub run : Ring → List Event → List (Option ℕ) × Ring
run r [] = ([], r)
run r (key ch ∷ events) = run (push r ch) events
run r (getchar ∷ events) = let (c, r') = pop r in let (cs, last) = run r' events in (c ∷ cs, last)

-- The specification: a queue that holds at most 255 bytes and drops what does not fit.
unfoldable pub queue_push : List ℕ → ℕ → List ℕ
queue_push q ch = if ltb (length q) (buf_size - 1) then q ++ (ch ∷ []) else q

unfoldable pub queue_run : List ℕ → List Event → List (Option ℕ) × List ℕ
queue_run q [] = ([], q)
queue_run q (key ch ∷ events) = queue_run (queue_push q ch) events
queue_run [] (getchar ∷ events) = let (cs, last) = queue_run [] events in (none ∷ cs, last)
queue_run (c ∷ q) (getchar ∷ events) = let (cs, last) = queue_run q events in (some c ∷ cs, last)

contents-put :
    {r : Ring} (ch : ℕ)
    → IsValid r
    → (r.tail + 1) % buf_size ≢ r.head
    → contents (record r { buf = set r.buf r.tail ch; tail = (r.tail + 1) % buf_size })
      ≡ contents r ++ (ch ∷ [])
unfolding contents
contents-put {r} ch v ne =
    Circular.contents-push 0 buf_size r.buf ch r.head r.tail (omega arith) v.head_in v.tail_in ne

contents-push : {r : Ring} (ch : ℕ) → IsValid r → contents (push r ch) ≡ queue_push (contents r) ch
unfolding queue_push available
contents-push {r} ch v = elim (Bool-cases ((r.tail + 1) % buf_size == r.head)) [
  | inl e ↦ ap contents (push-full r ch (ground arith)) ∙ ground (arith, available-length r)
  | inr e ↦
      ap contents (push-room r ch (ground arith))
      ∙ contents-put ch v (ground arith)
      ∙ ground (arith, available-length r)
]

pop-Cases :
    {r : Ring}
    → IsValid r
    → ((pop r).0 ≡ none) × ((pop r).1 ≡ r) × (contents r ≡ [])
      ⊎ ((c : ℕ) × ((pop r).0 ≡ some c) × (contents r ≡ c ∷ contents (pop r).1))
unfolding pop contents
pop-Cases {r} v = elim (Bool-cases (r.head == r.tail)) [
  | inl e ↦ simp e (inl (refl, refl, empty (ground arith)))
  | inr e ↦ simp e (
      inr (
        get_or r.buf r.head 0,
        refl,
        Circular.contents-pop 0 buf_size r.buf r.head r.tail v.head_in v.tail_in (ground arith),
      ))
]
  where
    empty : r.head ≡ r.tail → Circular.contents 0 buf_size r.buf r.head r.tail ≡ []
    empty e = rw e (Circular.contents_empty 0 buf_size r.buf r.tail v.tail_in)

queue_run_empty :
    (q : List ℕ) (events : List Event)
    → q ≡ []
    → queue_run q (getchar ∷ events) ≡ (none ∷ (queue_run q events).0, (queue_run q events).1)
unfolding queue_run
queue_run_empty [] events e = refl
queue_run_empty (c ∷ q) events e = cc

queue_run_cons :
    (q rest : List ℕ) (c : ℕ) (events : List Event)
    → q ≡ c ∷ rest
    → queue_run q (getchar ∷ events)
      ≡ (some c ∷ (queue_run rest events).0, (queue_run rest events).1)
unfolding queue_run
queue_run_cons q rest c events e = rw e

getchar_step : Option ℕ → List ℕ → List Event → List (Option ℕ) × List ℕ
getchar_step c q events = (c ∷ (queue_run q events).0, (queue_run q events).1)

getchar_refines :
    {r : Ring} (events : List Event)
    → IsValid r
    → getchar_step (pop r).0 (contents (pop r).1) events ≡ queue_run (contents r) (getchar ∷ events)
unfolding getchar_step
getchar_refines {r} events v = elim (pop-Cases v) [
  | inl (a, b, c) ↦
      ap₂ (λ o q. getchar_step o q events) a (ap contents b)
      ∙ sym (queue_run_empty (contents r) events c)
  | inr (c, a, e) ↦
      ap (λ o. getchar_step o (contents (pop r).1) events) a
      ∙ sym (queue_run_cons (contents r) (contents (pop r).1) c events e)
]

-- Under any interleaving of key strokes and reads the programs get the bytes that a first-in
-- first-out queue of capacity 255 gives, which drops a key that finds it full; and the ring is left
-- valid, holding what that queue holds.
pub run_refines :
    (r : Ring) (events : List Event)
    → IsValid r
    → IsValid (run r events).1
      × (((run r events).0, contents (run r events).1) ≡ queue_run (contents r) events)
unfolding run queue_run
run_refines r [] v = (v, refl)
run_refines r (key ch ∷ events) v =
    let rest = run_refines (push r ch) events (push-IsValid ch v) in
    (rest.0, rest.1 ∙ ap (λ q. queue_run q events) (contents-push ch v))
run_refines r (getchar ∷ events) v =
    let rest = run_refines (pop r).1 events (pop-IsValid v) in
    (
      rest.0,
      ap (λ (out : List (Option ℕ) × List ℕ). ((pop r).0 ∷ out.0, out.1)) rest.1
          ∙ unfold getchar_step in getchar_refines events v,
    )
