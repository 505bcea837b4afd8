-- ===== src/Ipc/Pipe/Valid.antt =====
-- The representation invariant of a pipe and of the table, and the abstract view of a pipe as the
-- queue of the bytes in it, oldest first.
use oxide_os.Prelude.{
  ℕ, ◌+◌, ◌-◌, ◌%◌, ◌≤◌, ◌<◌, ◌≡◌, ◌≢◌, true, List, [], ◌∷◌, ◌++◌, length, length-set,
  length-replicate, get_or, arith, All, All-replicate,
}
use oxide_os.Prelude.Circular
use oxide_os.Ipc.Pipe.{
  Pipe, Pipes, pipe_buf, pipe_count, new, pipes_init, put_byte, len, available_write,
}

pub record IsValid (p : Pipe) : Type 0 where
  pub storage : length p.buf ≡ pipe_buf
  pub head_in : p.head < pipe_buf
  pub tail_in : p.tail < pipe_buf
  pub readers : p.read_refs ≤ 255
  pub writers : p.write_refs ≤ 255
  pub read_counted : p.read_open ≡ true → 0 < p.read_refs
  pub write_counted : p.write_open ≡ true → 0 < p.write_refs

abbrev pub AllValid : Pipes → Type 0
AllValid pipes = (length pipes ≡ pipe_count) × All IsValid pipes

unfoldable pub contents : Pipe → List ℕ
contents p = Circular.contents 0 pipe_buf p.buf p.head p.tail

-- One byte of the storage stays free.
abbrev pub capacity : ℕ
capacity = pipe_buf - 1

pub length-contents : (p : Pipe) → length (contents p) ≡ len p
unfolding contents
length-contents p = Circular.length-contents 0 pipe_buf p.buf p.head p.tail

pub new-IsValid : IsValid new
unfolding new
new-IsValid = record {
  storage = length-replicate {A = ℕ} pipe_buf 0;
  head_in = omega arith;
  tail_in = omega arith;
  readers = omega arith;
  writers = omega arith;
  read_counted = λ h. cc;
  write_counted = λ h. cc;
}

pub pipes_init-AllValid : AllValid pipes_init
unfolding pipes_init
pipes_init-AllValid =
    (length-replicate pipe_count new, All-replicate IsValid pipe_count new new-IsValid)

pub put_byte-IsValid : {p : Pipe} (x : ℕ) → IsValid p → IsValid (put_byte p x)
unfolding put_byte
put_byte-IsValid {p} x v = record {
  storage = omega (arith, length-set p.buf p.tail x);
  head_in = v.head_in;
  tail_in = omega arith;
  readers = v.readers;
  writers = v.writers;
  read_counted = v.read_counted;
  write_counted = v.write_counted;
}

-- While there is room, a byte goes to the end of the queue.
pub contents-put_byte :
    {p : Pipe} (x : ℕ)
    → IsValid p
    → available_write p ≢ 0
    → contents (put_byte p x) ≡ contents p ++ (x ∷ [])
unfolding contents put_byte
contents-put_byte {p} x v room =
    Circular.contents-push 0 pipe_buf p.buf x p.head p.tail (omega arith) v.head_in v.tail_in
      (omega arith)

pub contents-ne_empty :
    {p : Pipe}
    → IsValid p
    → p.head ≢ p.tail
    → contents p ≡ get_or p.buf p.head 0 ∷ contents (record p { head = (p.head + 1) % pipe_buf })
unfolding contents
contents-ne_empty {p} v ne =
    Circular.contents-pop 0 pipe_buf p.buf p.head p.tail v.head_in v.tail_in ne

pub contents_of_empty : {p : Pipe} → IsValid p → p.head ≡ p.tail → contents p ≡ []
unfolding contents
contents_of_empty {p} v e = rw e (Circular.contents_empty 0 pipe_buf p.buf p.tail v.tail_in)
