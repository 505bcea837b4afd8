-- ===== src/Ipc/Pipe/Fifo.antt =====
-- Pipes as first-in first-out channels: one write, one read, and any sequence of calls.
use oxide_os.Prelude.{
  ℕ, zero, suc, ◌+◌, ◌-◌, ◌*◌, min, ◌≡◌, ◌≢◌, ◌<◌, refl, ap, ap₂, sym, ◌∙◌, inl, inr, true, false,
  List, [], ◌∷◌, ◌++◌, append-nil, append_assoc, length, length-set, length-take, take, take-nil,
  take-append-drop, drop, set, get_or-set_self, get_or-set_ne, if◌then◌else◌, ◌==◌, Bool-cases,
  ==_iff, ℤ, pos, neg, to_usize, arith, All-set, All-get_or,
}
use oxide_os.Ipc.Pipe.{
  Pipe, Pipes, new, pipe_at, pipe_index, is_pipe_fd, is_read_fd, pipe_fd_base, pipe_count,
  write_loop, write_pipe, write, read_loop, read_pipe, read,
}
use oxide_os.Ipc.Pipe.Valid.{
  IsValid, AllValid, contents, capacity, contents-ne_empty, contents_of_empty,
}
use oxide_os.Ipc.Pipe.Transfer.{SameEnds, Wrote, write_loop-Wrote, Took, read_loop-Took}

pub pipe_at-IsValid :
    (pipes : Pipes) (i : ℕ) → i < pipe_count → AllValid pipes → IsValid (pipe_at pipes i)
unfolding pipe_at
pipe_at-IsValid pipes i h v = All-get_or IsValid pipes i new (omega arith) v.1

pub pipe_at-set_self :
    (pipes : Pipes) (i : ℕ) (q : Pipe) → i < length pipes → pipe_at (set pipes i q) i ≡ q
unfolding pipe_at
pipe_at-set_self pipes i q h = get_or-set_self pipes i q new h

pub pipe_at-set_ne :
    (pipes : Pipes) (i j : ℕ) (q : Pipe) → i ≢ j → pipe_at (set pipes i q) j ≡ pipe_at pipes j
unfolding pipe_at
pipe_at-set_ne pipes i j q ne = get_or-set_ne pipes i j q new ne

pub set-AllValid :
    (pipes : Pipes) (i : ℕ) (q : Pipe) → IsValid q → AllValid pipes → AllValid (set pipes i q)
set-AllValid pipes i q vq v = (length-set pipes i q ∙ v.0, All-set IsValid pipes i q vq v.1)

pub pipe_index-lt : (fd : ℤ) → is_pipe_fd fd ≡ true → pipe_index fd < pipe_count
unfolding is_pipe_fd pipe_index
pipe_index-lt (pos n) h = ground arith
pipe_index-lt (ℤ.negsuc n) h = ground arith

-- The state of a table after a call on slot `i`: that slot holds `q`, all others are as before.
pub record Only (pipes : Pipes) (i : ℕ) (q : Pipe) (after : Pipes) : Type 0 where
  pub here : pipe_at after i ≡ q
  pub others : (j : ℕ) → i ≢ j → pipe_at after j ≡ pipe_at pipes j
  pub valid : AllValid after

pub set-Only :
    (pipes : Pipes) (i : ℕ) (q : Pipe)
    → i < pipe_count
    → IsValid q
    → AllValid pipes
    → Only pipes i q (set pipes i q)
set-Only pipes i q h vq v = record {
  here = pipe_at-set_self pipes i q (omega arith);
  others = λ j ne. pipe_at-set_ne pipes i j q ne;
  valid = set-AllValid pipes i q vq v;
}

-- A write to an open write end takes as many bytes as fit, returns their number, puts exactly
-- those behind the bytes already in the pipe, in order, and changes no other pipe.
pub write_lem :
    (pipes : Pipes) (fd : ℤ) (bytes : List ℕ)
    → AllValid pipes
    → is_pipe_fd fd ≡ true
    → is_read_fd fd ≡ false
    → (pipe_at pipes (pipe_index fd)).write_open ≡ true
    → let p = pipe_at pipes (pipe_index fd) in
      let room = capacity - length (contents p) in
      (q : Pipe) × ((write pipes fd bytes).0 ≡ pos (min (length bytes) room))
      × (contents q ≡ contents p ++ take room bytes)
      × SameEnds p q
      × Only pipes (pipe_index fd) q (write pipes fd bytes).1
unfolding write
write_lem pipes fd bytes v is_fd is_write is_open =
    rw (is_fd, is_write, is_open)
      (
        (write_loop p bytes 0).1,
        ap pos (omega (arith, done.count)),
        done.queued,
        done.ends,
        set-Only pipes (pipe_index fd) _ (pipe_index-lt fd is_fd) done.valid v,
      )
  where
    p : Pipe
    p = pipe_at pipes (pipe_index fd)

    done : Wrote p bytes 0 (write_loop p bytes 0)
    done = write_loop-Wrote p bytes 0 (pipe_at-IsValid pipes _ (pipe_index-lt fd is_fd) v)

-- A read of a pipe that holds bytes stores as many of the oldest as the buffer has room for, in
-- order, returns their number, leaves the others, and changes no other pipe.
pub read_lem :
    (pipes : Pipes) (fd : ℤ) (room : ℕ)
    → AllValid pipes
    → is_pipe_fd fd ≡ true
    → is_read_fd fd ≡ true
    → (pipe_at pipes (pipe_index fd)).read_open ≡ true
    → contents (pipe_at pipes (pipe_index fd)) ≢ []
    → let p = pipe_at pipes (pipe_index fd) in
      (q : Pipe) × ((read pipes fd room).0 ≡ pos (min room (length (contents p))))
      × ((read pipes fd room).1 ≡ take room (contents p))
      × (contents q ≡ drop room (contents p))
      × SameEnds p q
      × Only pipes (pipe_index fd) q (read pipes fd room).2
unfolding read
read_lem pipes fd room v is_fd is_read is_open some_bytes =
    rw (is_fd, is_read, is_open, nonempty)
      (
        (read_loop room p).1,
        ap pos (ap length took.bytes ∙ length-take room (contents p)),
        took.bytes,
        took.left,
        took.ends,
        set-Only pipes (pipe_index fd) _ (pipe_index-lt fd is_fd) took.valid v,
      )
  where
    p : Pipe
    p = pipe_at pipes (pipe_index fd)

    valid : IsValid p
    valid = pipe_at-IsValid pipes _ (pipe_index-lt fd is_fd) v

    took : Took p room (read_loop room p)
    took = read_loop-Took room p valid

    nonempty : (p.head == p.tail) ≡ false
    nonempty = elim (Bool-cases (p.head == p.tail)) [
      | inl e ↦ absurd (some_bytes (contents_of_empty valid ((==_iff p.head p.tail).0 e)))
      | inr e ↦ e
    ]

-- A read of an empty pipe stores and changes nothing: it reports the end of the file when no write
-- end is held, and otherwise that the caller should try again.
pub read_empty :
    (pipes : Pipes) (fd : ℤ) (room : ℕ)
    → AllValid pipes
    → is_pipe_fd fd ≡ true
    → is_read_fd fd ≡ true
    → (pipe_at pipes (pipe_index fd)).read_open ≡ true
    → contents (pipe_at pipes (pipe_index fd)) ≡ []
    → ((read pipes fd room).0
        ≡ (if (pipe_at pipes (pipe_index fd)).write_refs == 0 then pos 0 else neg 6))
      × ((read pipes fd room).1 ≡ [])
      × Only pipes (pipe_index fd) (pipe_at pipes (pipe_index fd)) (read pipes fd room).2
unfolding read
read_empty pipes fd room v is_fd is_read is_open no_bytes =
    rw (is_fd, is_read, is_open, empty)
      (elim (Bool-cases (p.write_refs == 0)) [
        | inl e ↦ rw e (refl, refl, same)
        | inr e ↦ rw e (refl, refl, same)
      ])
  where
    p : Pipe
    p = pipe_at pipes (pipe_index fd)

    valid : IsValid p
    valid = pipe_at-IsValid pipes _ (pipe_index-lt fd is_fd) v

    same : Only pipes (pipe_index fd) p (set pipes (pipe_index fd) p)
    same = set-Only pipes (pipe_index fd) p (pipe_index-lt fd is_fd) valid v

    empty : (p.head == p.tail) ≡ true
    empty = elim (Bool-cases (p.head == p.tail)) [
      | inl e ↦ e
      | inr e ↦ cc (no_bytes, contents-ne_empty {p = p} valid (ground arith))
    ]

min-zero : (n : ℕ) → min n 0 ≡ 0
min-zero n = omega arith

take-min : (n : ℕ) (xs : List ℕ) → take (min (length xs) n) xs ≡ take n xs
take-min zero xs = rw (min-zero (length xs))
take-min (suc n) [] = take-nil (min (length {A = ℕ} []) (suc n))
take-min (suc n) (x ∷ xs) = ap (λ k. take k (x ∷ xs)) shift ∙ ap (◌∷◌ x) (take-min n xs)
  where
    shift : min (length (x ∷ xs)) (suc n) ≡ suc (min (length xs) n)
    shift = omega arith

-- One pipe's effect on its queue, on every branch: a write appends the bytes that its result
-- counts, and a read removes the bytes that it returns.
pub write_pipe-queue :
    (p : Pipe) (bytes : List ℕ)
    → IsValid p
    → IsValid (write_pipe p bytes).1
      × (contents (write_pipe p bytes).1
          ≡ contents p ++ take (to_usize (write_pipe p bytes).0) bytes)
unfolding write_pipe
write_pipe-queue p bytes v = elim (Bool-cases p.write_open) [
  | inl e ↦ simp e (done.valid, done.queued ∙ ap (◌++◌ (contents p)) (sym counted))
  | inr e ↦ simp e (v, sym (append-nil (contents p)))
]
  where
    done : Wrote p bytes 0 (write_loop p bytes 0)
    done = write_loop-Wrote p bytes 0 v

    counted : take (write_loop p bytes 0).0 bytes ≡ take (capacity - length (contents p)) bytes
    counted =
        ap (λ k. take k bytes) (omega (arith, done.count))
        ∙ take-min (capacity - length (contents p)) bytes

pub read_pipe-queue :
    (p : Pipe) (room : ℕ)
    → IsValid p
    → IsValid (read_pipe p room).2
      × (contents p ≡ (read_pipe p room).1 ++ contents (read_pipe p room).2)
unfolding read_pipe
read_pipe-queue p room v = elim (Bool-cases p.read_open) [
  | inr e ↦ simp e (v, refl)
  | inl e ↦ simp e (elim (Bool-cases (p.head == p.tail)) [
    | inr d ↦ simp d (
      took.valid,
      sym (take-append-drop room (contents p)) ∙ ap₂ ◌++◌ (sym took.bytes) (sym took.left),
    )
    | inl d ↦ simp d (elim (Bool-cases (p.write_refs == 0)) [
      | inl c ↦ simp c (v, refl)
      | inr c ↦ simp c (v, refl)
    ])
  ])
]
  where
    took : Took p room (read_loop room p)
    took = read_loop-Took room p v

-- The descriptors of pipe `i`, as `alloc` computes them.
abbrev pub read_fd_of : ℕ → ℤ
read_fd_of i = pos (pipe_fd_base + i * 2)

abbrev pub write_fd_of : ℕ → ℤ
write_fd_of i = pos (pipe_fd_base + i * 2 + 1)

pub read_fd_of_lem :
    (i : ℕ)
    → i < pipe_count
    → (is_pipe_fd (read_fd_of i) ≡ true)
      × (is_read_fd (read_fd_of i) ≡ true)
      × (pipe_index (read_fd_of i) ≡ i)
unfolding is_pipe_fd is_read_fd pipe_index
read_fd_of_lem i h = ground arith

pub write_fd_of_lem :
    (i : ℕ)
    → i < pipe_count
    → (is_pipe_fd (write_fd_of i) ≡ true)
      × (is_read_fd (write_fd_of i) ≡ false)
      × (pipe_index (write_fd_of i) ≡ i)
unfolding is_pipe_fd is_read_fd pipe_index
write_fd_of_lem i h = ground arith

write-Queued :
    (pipes : Pipes) (i : ℕ) (bytes : List ℕ)
    → i < pipe_count
    → AllValid pipes
    → let (r, after) = write pipes (write_fd_of i) bytes in
      AllValid after
      × (contents (pipe_at after i) ≡ contents (pipe_at pipes i) ++ take (to_usize r) bytes)
unfolding write
write-Queued pipes i bytes h v =
    let fds = write_fd_of_lem i h in
    let one = write_pipe-queue (pipe_at pipes i) bytes (pipe_at-IsValid pipes i h v) in
    simp (fds.0, fds.1, fds.2)
      (
        set-AllValid pipes i _ one.0 v,
        ap contents (pipe_at-set_self pipes i _ (omega arith)) ∙ one.1,
      )

read-Queued :
    (pipes : Pipes) (i room : ℕ)
    → i < pipe_count
    → AllValid pipes
    → let (r, bytes, after) = read pipes (read_fd_of i) room in
      AllValid after × (contents (pipe_at pipes i) ≡ bytes ++ contents (pipe_at after i))
unfolding read
read-Queued pipes i room h v =
    let fds = read_fd_of_lem i h in
    let one = read_pipe-queue (pipe_at pipes i) room (pipe_at-IsValid pipes i h v) in
    simp (fds.0, fds.1, fds.2)
      (
        set-AllValid pipes i _ one.0 v,
        one.1
            ∙ ap (λ q. (read_pipe (pipe_at pipes i) room).1 ++ contents q)
                (sym (pipe_at-set_self pipes i _ (omega arith))),
      )

-- A program's calls on one pipe, and what has gone in and come out after them.
pub data Call : Type 0 where
  send : List ℕ → Call
  recv : ℕ → Call

pub record Trace : Type 0 where
  pub accepted : List ℕ
  pub delivered : List ℕ
  pub after : Pipes

pub run : ℕ → Pipes → List Call → Trace
run i pipes [] = record { accepted = []; delivered = []; after = pipes }
run i pipes (send bytes ∷ calls) =
    let (r, next) = write pipes (write_fd_of i) bytes in
    let t = run i next calls in record t { accepted = take (to_usize r) bytes ++ t.accepted }
run i pipes (recv room ∷ calls) =
    let (r, bytes, next) = read pipes (read_fd_of i) room in
    let t = run i next calls in record t { delivered = bytes ++ t.delivered }

-- Whatever the calls, and whatever fails among them: the bytes in the pipe at first and those that
-- the writes accepted are, in this order, those that the reads delivered and those still in it.
pub run_fifo :
    (i : ℕ) (pipes : Pipes) (calls : List Call)
    → i < pipe_count
    → AllValid pipes
    → let t = run i pipes calls in
      AllValid t.after
      × (contents (pipe_at pipes i) ++ t.accepted ≡ t.delivered ++ contents (pipe_at t.after i))
unfolding run
run_fifo i pipes [] h v = (v, append-nil (contents (pipe_at pipes i)))
run_fifo i pipes (send bytes ∷ calls) h v =
    let w = write-Queued pipes i bytes h v in
    let next = (write pipes (write_fd_of i) bytes).1 in
    let rest = run_fifo i next calls h w.0 in
    (
      rest.0,
      sym (append_assoc (contents (pipe_at pipes i)) _ (run i next calls).accepted)
          ∙ ap (λ xs. xs ++ (run i next calls).accepted) (sym w.1)
          ∙ rest.1,
    )
run_fifo i pipes (recv room ∷ calls) h v =
    let w = read-Queued pipes i room h v in
    let next = (read pipes (read_fd_of i) room).2 in
    let bytes = (read pipes (read_fd_of i) room).1 in
    let rest = run_fifo i next calls h w.0 in
    (
      rest.0,
      ap (λ xs. xs ++ (run i next calls).accepted) w.1
          ∙ append_assoc bytes _ _
          ∙ ap (◌++◌ bytes) rest.1
          ∙ sym (append_assoc bytes _ _),
    )
