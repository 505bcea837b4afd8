-- ===== src/Ipc/Pipe/Refs.antt =====
-- The reference counts of the ends of a pipe, and the invariant over all operations.
use oxide_os.Prelude.{
  ℕ, ◌-◌, ◌≡◌, ◌<◌, refl, ap, ◌∙◌, inl, inr, Bool, true, false, List, [], ◌∷◌, length, set, set-set,
  set-get_or, if◌then◌else◌, ◌==◌, Bool-cases, ℤ, pos, neg, arith,
}
use oxide_os.Ipc.Pipe.{
  Pipe, Pipes, new, pipe_at, pipe_index, is_pipe_fd, is_read_fd, pipe_count, add_ref_end, close_end,
  addref, close, alloc, saturating_inc, write, read, pipes_init,
}
use oxide_os.Ipc.Pipe.Valid.{IsValid, AllValid, contents, pipes_init-AllValid}
use oxide_os.Ipc.Pipe.Fifo.{
  set-AllValid, pipe_at-IsValid, pipe_at-set_self, pipe_index-lt, read_fd_of, write_fd_of,
  read_fd_of_lem, write_fd_of_lem, read_empty, write_pipe-queue, read_pipe-queue,
}
use oxide_os.Ipc.Pipe.Alloc.{alloc-AllValid}

add_ref_end-IsValid : (b : Bool) {p : Pipe} → IsValid p → IsValid (add_ref_end b p)
unfolding add_ref_end
add_ref_end-IsValid true v = record {
  storage = v.storage;
  head_in = v.head_in;
  tail_in = v.tail_in;
  readers = omega arith;
  writers = v.writers;
  read_counted = λ h. omega arith;
  write_counted = v.write_counted;
}
add_ref_end-IsValid false v = record {
  storage = v.storage;
  head_in = v.head_in;
  tail_in = v.tail_in;
  readers = v.readers;
  writers = omega arith;
  read_counted = v.read_counted;
  write_counted = λ h. omega arith;
}

close_end-IsValid : (b : Bool) {p : Pipe} → IsValid p → IsValid (close_end b p)
unfolding close_end
close_end-IsValid true {p} v = record {
  storage = v.storage;
  head_in = v.head_in;
  tail_in = v.tail_in;
  readers = omega arith;
  writers = v.writers;
  read_counted = λ h. ground arith;
  write_counted = v.write_counted;
}
close_end-IsValid false {p} v = record {
  storage = v.storage;
  head_in = v.head_in;
  tail_in = v.tail_in;
  readers = v.readers;
  writers = omega arith;
  read_counted = v.read_counted;
  write_counted = λ h. ground arith;
}

-- A program's system calls on pipes, whichever descriptors it passes.
pub data Op : Type 0 where
  allocs : Op
  addrefs closes : ℤ → Op
  writes : ℤ → List ℕ → Op
  reads : ℤ → ℕ → Op

unfoldable pub step : Pipes → Op → Pipes
step pipes allocs = (alloc pipes).1
step pipes (addrefs fd) = addref pipes fd
step pipes (closes fd) = (close pipes fd).1
step pipes (writes fd bytes) = (write pipes fd bytes).1
step pipes (reads fd room) = (read pipes fd room).2

unfoldable pub run_ops : Pipes → List Op → Pipes
run_ops pipes [] = pipes
run_ops pipes (op ∷ ops) = run_ops (step pipes op) ops

module _ (pipes : Pipes) (v : AllValid pipes) where
  slot-IsValid : (fd : ℤ) → is_pipe_fd fd ≡ true → IsValid (pipe_at pipes (pipe_index fd))
  slot-IsValid fd e = pipe_at-IsValid pipes (pipe_index fd) (pipe_index-lt fd e) v

  pub addref-AllValid : (fd : ℤ) → AllValid (addref pipes fd)
  unfolding addref
  addref-AllValid fd = elim (Bool-cases (is_pipe_fd fd)) [
    | inr e ↦ simp e v
    | inl e ↦ simp e (
        set-AllValid pipes (pipe_index fd) _
          (add_ref_end-IsValid (is_read_fd fd) (slot-IsValid fd e)) v)
  ]

  close-AllValid : (fd : ℤ) → AllValid (close pipes fd).1
  unfolding close
  close-AllValid fd = elim (Bool-cases (is_pipe_fd fd)) [
    | inr e ↦ simp e v
    | inl e ↦ simp e (
        set-AllValid pipes (pipe_index fd) _ (close_end-IsValid (is_read_fd fd) (slot-IsValid fd e))
          v)
  ]

  write-AllValid : (fd : ℤ) (bytes : List ℕ) → AllValid (write pipes fd bytes).1
  unfolding write
  write-AllValid fd bytes = elim (Bool-cases (is_pipe_fd fd)) [
    | inr e ↦ simp e v
    | inl e ↦ elim (Bool-cases (is_read_fd fd)) [
      | inl r ↦ simp (e, r) v
      | inr r ↦
          simp (e, r)
            (set-AllValid pipes (pipe_index fd) _ (write_pipe-queue _ bytes (slot-IsValid fd e)).0
              v)
    ]
  ]

  read-AllValid : (fd : ℤ) (room : ℕ) → AllValid (read pipes fd room).2
  unfolding read
  read-AllValid fd room = elim (Bool-cases (is_pipe_fd fd)) [
    | inr e ↦ simp e v
    | inl e ↦ elim (Bool-cases (is_read_fd fd)) [
      | inr r ↦ simp (e, r) v
      | inl r ↦
          simp (e, r)
            (set-AllValid pipes (pipe_index fd) _ (read_pipe-queue _ room (slot-IsValid fd e)).0 v)
    ]
  ]

step-AllValid : (pipes : Pipes) (op : Op) → AllValid pipes → AllValid (step pipes op)
unfolding step
step-AllValid pipes allocs v = alloc-AllValid pipes v
step-AllValid pipes (addrefs fd) v = addref-AllValid pipes v fd
step-AllValid pipes (closes fd) v = close-AllValid pipes v fd
step-AllValid pipes (writes fd bytes) v = write-AllValid pipes v fd bytes
step-AllValid pipes (reads fd room) v = read-AllValid pipes v fd room

run_ops-AllValid : (pipes : Pipes) (ops : List Op) → AllValid pipes → AllValid (run_ops pipes ops)
unfolding run_ops
run_ops-AllValid pipes [] v = v
run_ops-AllValid pipes (op ∷ ops) v =
    run_ops-AllValid (step pipes op) ops (step-AllValid pipes op v)

-- From the table at boot, after any calls with any descriptors: every buffer has its size, every
-- position lies in it, the counts fit a byte, and an open end has at least one reference.
pub reachable-AllValid : (ops : List Op) → AllValid (run_ops pipes_init ops)
reachable-AllValid ops = run_ops-AllValid pipes_init ops pipes_init-AllValid

table_same : (pipes : Pipes) (i : ℕ) → set pipes i (pipe_at pipes i) ≡ pipes
unfolding pipe_at
table_same pipes i = set-get_or pipes i new

inc_dec : (n : ℕ) → n < 255 → (saturating_inc n - 1 ≡ n)
inc_dec n h = omega arith

close_end-add_ref_end :
    (b : Bool) (p : Pipe)
    → IsValid p
    → p.read_refs < 255
    → p.write_refs < 255
    → (if b then p.read_open else p.write_open) ≡ true
    → close_end b (add_ref_end b p) ≡ p
unfolding close_end add_ref_end
close_end-add_ref_end true p v hr hw e = ground (arith, v.read_counted e)
close_end-add_ref_end false p v hr hw e = ground (arith, v.write_counted e)

-- Closing a descriptor undoes one duplication of it, if its end is open and the counts are below
-- their maximum: the table is as it was.
pub close-addref :
    (pipes : Pipes) (fd : ℤ)
    → AllValid pipes
    → is_pipe_fd fd ≡ true
    → let p = pipe_at pipes (pipe_index fd) in
      p.read_refs < 255
      → p.write_refs < 255
      → (if is_read_fd fd then p.read_open else p.write_open) ≡ true
      → close (addref pipes fd) fd ≡ (pos 0, pipes)
unfolding close addref
close-addref pipes fd v e hr hw open_end =
    simp
      (
        e,
        pipe_at-set_self pipes (pipe_index fd) _ (index_in (pipe_index-lt fd e)),
        set-set,
        close_end-add_ref_end (is_read_fd fd) _ (slot-IsValid pipes v fd e) hr hw open_end,
      )
      same
  where
    index_in : pipe_index fd < pipe_count → pipe_index fd < length pipes
    index_in h = omega arith

    same :
        ◌≡◌ {A = ℤ × Pipes}
          (pos 0, set pipes (pipe_index fd) (pipe_at pipes (pipe_index fd)))
          (pos 0, pipes)
    same = ap (λ (ps : Pipes). (pos 0, ps)) (table_same pipes (pipe_index fd))

close_writer-Fields :
    (p : Pipe)
    → let q = close_end false p in
      (q.read_open ≡ p.read_open) × (q.write_refs ≡ p.write_refs - 1) × (contents q ≡ contents p)
unfolding close_end contents
close_writer-Fields p = (refl, refl, refl)

read_empty_at :
    (pipes : Pipes) (i room : ℕ) (q : Pipe)
    → i < pipe_count
    → AllValid pipes
    → pipe_at pipes i ≡ q
    → q.read_open ≡ true
    → contents q ≡ []
    → (read pipes (read_fd_of i) room).0 ≡ (if q.write_refs == 0 then pos 0 else neg 6)
read_empty_at pipes i room q h v e is_open none_left =
    let r = read_fd_of_lem i h in
    let at : pipe_at pipes (pipe_index (read_fd_of i)) ≡ q = ap (pipe_at pipes) r.2 ∙ e in
    (read_empty pipes (read_fd_of i) room v r.0 r.1 (ap (λ (p : Pipe). p.read_open) at ∙ is_open)
      (ap contents at ∙ none_left)).0
    ∙ ap (λ (p : Pipe). if p.write_refs == 0 then pos 0 else neg 6) at

-- Closing the write end of an empty pipe shows at its read end at once: a read then reports the
-- end of the file exactly when that reference to the write end was the only one.
pub read-close_writer :
    (pipes : Pipes) (i room : ℕ)
    → i < pipe_count
    → AllValid pipes
    → let p = pipe_at pipes i in
      p.read_open ≡ true
      → 0 < p.write_refs
      → contents p ≡ []
      → (read (close pipes (write_fd_of i)).1 (read_fd_of i) room).0
        ≡ (if p.write_refs == 1 then pos 0 else neg 6)
unfolding close
read-close_writer pipes i room h v is_open held none_left =
    let w = write_fd_of_lem i h in
    let p = pipe_at pipes i in
    let f = close_writer-Fields p in
    let valid =
      set-AllValid pipes i (close_end false p)
        (close_end-IsValid false (pipe_at-IsValid pipes i h v)) v in
    simp (w.0, w.1, w.2)
      (read_empty_at (set pipes i (close_end false p)) i room (close_end false p) h valid
          (pipe_at-set_self pipes i (close_end false p) (omega arith)) (f.0 ∙ is_open)
          (f.2 ∙ none_left)
        ∙ ground (arith, f))
