-- ===== src/Ipc/Pipe.antt =====
-- kernel/src/kernel/ipc/pipe.rs: anonymous pipes in a table of eight. The static table is an
-- argument and a result of each operation. A byte is a number that is only moved. A read returns
-- the bytes that it stores in the caller's buffer, of which only the length matters.
pub mod Valid
pub mod Transfer
pub mod Fifo
pub mod Alloc
pub mod Refs
mod Tests
use oxide_os.Prelude.{
  ℕ, zero, suc, ◌+◌, ◌-◌, ◌*◌, ◌/◌, ◌%◌, min, Bool, true, false, not, ◌&&◌, ◌||◌, Option, none,
  some, List, [], ◌∷◌, ltb, leb, ◌==◌, if◌then◌else◌, ℤ, pos, neg, leb_ℤ, ltb_ℤ, sub, to_usize,
  nat_abs, length, get_or, set, replicate,
}

abbrev pub pipe_fd_base : ℕ
pipe_fd_base = 80

abbrev pub pipe_count : ℕ
pipe_count = 8

abbrev pub pipe_buf : ℕ
pipe_buf = 4096

pub record Pipe : Type 0 where
  pub buf : List ℕ
  pub head : ℕ
  pub tail : ℕ
  pub read_open : Bool
  pub write_open : Bool
  pub write_refs : ℕ
  pub read_refs : ℕ

unfoldable pub new : Pipe
new = record {
  buf = replicate pipe_buf 0;
  head = 0;
  tail = 0;
  read_open = false;
  write_open = false;
  write_refs = 0;
  read_refs = 0;
}

abbrev pub is_empty : Pipe → Bool
is_empty p = p.head == p.tail

abbrev pub len : Pipe → ℕ
len p = (p.tail + pipe_buf - p.head) % pipe_buf

abbrev pub available_write : Pipe → ℕ
available_write p = pipe_buf - 1 - len p

abbrev pub Pipes : Type 0
Pipes = List Pipe

-- The table at boot.
unfoldable pub pipes_init : Pipes
unfolding new
pipes_init = replicate pipe_count new

unfoldable pub is_pipe_fd : ℤ → Bool
is_pipe_fd fd = leb_ℤ (pos pipe_fd_base) fd && ltb_ℤ fd (pos (pipe_fd_base + pipe_count * 2))

-- The cast is made only where `is_pipe_fd` holds.
unfoldable pub pipe_index : ℤ → ℕ
pipe_index fd = to_usize (sub fd pipe_fd_base) / 2

-- The remainder of a negative number is zero exactly when that of its absolute value is.
unfoldable pub is_read_fd : ℤ → Bool
is_read_fd fd = nat_abs (sub fd pipe_fd_base) % 2 == 0

-- `PIPES[i]`; every index that the code uses is inside the table.
unfoldable pub pipe_at : Pipes → ℕ → Pipe
unfolding new
pipe_at pipes i = get_or pipes i new

pub read_ready : Pipes → ℤ → Bool
unfolding is_pipe_fd is_read_fd pipe_index pipe_at
read_ready pipes fd =
    if not (is_pipe_fd fd) || not (is_read_fd fd)
    then false
    else not (is_empty (pipe_at pipes (pipe_index fd)))

-- What `alloc` makes of a free slot: the old bytes stay in the buffer.
unfoldable pub opened : Pipe → Pipe
opened p = record p {
  head = 0;
  tail = 0;
  read_open = true;
  write_open = true;
  read_refs = 1;
  write_refs = 1;
}

-- The loop of `alloc` from slot `i` on.
unfoldable pub alloc_from : ℕ → Pipes → Option (ℤ × ℤ) × Pipes
unfolding opened
alloc_from i [] = (none, [])
alloc_from i (p ∷ ps) =
    if not p.read_open && not p.write_open
    then (some (pos (pipe_fd_base + i * 2), pos (pipe_fd_base + i * 2 + 1)), opened p ∷ ps)
    else (let (fds, rest) = alloc_from (suc i) ps in (fds, p ∷ rest))

unfoldable pub alloc : Pipes → Option (ℤ × ℤ) × Pipes
unfolding alloc_from
alloc pipes = alloc_from 0 pipes

-- `saturating_add(1)` on a `u8`.
abbrev pub saturating_inc : ℕ → ℕ
saturating_inc n = min 255 (n + 1)

unfoldable pub add_ref_end : Bool → Pipe → Pipe
add_ref_end true p = record p { read_refs = saturating_inc p.read_refs }
add_ref_end false p = record p { write_refs = saturating_inc p.write_refs }

unfoldable pub addref : Pipes → ℤ → Pipes
unfolding is_pipe_fd is_read_fd pipe_index pipe_at add_ref_end
addref pipes fd =
    if not (is_pipe_fd fd)
    then pipes
    else set pipes (pipe_index fd) (add_ref_end (is_read_fd fd) (pipe_at pipes (pipe_index fd)))

-- One round of the loop of `write`, past its test.
pub put_byte : Pipe → ℕ → Pipe
put_byte p byte = record p { buf = set p.buf p.tail byte; tail = (p.tail + 1) % pipe_buf }

pub write_loop : Pipe → List ℕ → ℕ → ℕ × Pipe
unfolding put_byte
write_loop p [] written = (written, p)
write_loop p (byte ∷ bytes) written =
    if available_write p == 0
    then (written, p)
    else write_loop (put_byte p byte) bytes (written + 1)

pub write_pipe : Pipe → List ℕ → ℤ × Pipe
unfolding write_loop
write_pipe p bytes =
    if not p.write_open
    then (neg 5, p)
    else (let (written, q) = write_loop p bytes 0 in (pos written, q))

pub write : Pipes → ℤ → List ℕ → ℤ × Pipes
unfolding is_pipe_fd is_read_fd pipe_index pipe_at write_pipe
write pipes fd bytes =
    if not (is_pipe_fd fd) || is_read_fd fd
    then (neg 5, pipes)
    else (let (r, q) = write_pipe (pipe_at pipes (pipe_index fd)) bytes in
        (r, set pipes (pipe_index fd) q))

-- The loop of `read` with `room` bytes left in the caller's buffer: what it stores there, in order.
pub read_loop : ℕ → Pipe → List ℕ × Pipe
read_loop zero p = ([], p)
read_loop (suc room) p =
    let rest = read_loop room (record p { head = (p.head + 1) % pipe_buf }) in
    if is_empty p then ([], p) else (get_or p.buf p.head 0 ∷ rest.0, rest.1)

pub read_pipe : Pipe → ℕ → ℤ × List ℕ × Pipe
unfolding read_loop
read_pipe p room =
    if not p.read_open
    then (neg 5, [], p)
    else if is_empty p
    then (if p.write_refs == 0 then (pos 0, [], p) else (neg 6, [], p))
    else (let (bytes, q) = read_loop room p in (pos (length bytes), bytes, q))

pub read : Pipes → ℤ → ℕ → ℤ × List ℕ × Pipes
unfolding is_pipe_fd is_read_fd pipe_index pipe_at read_pipe
read pipes fd room =
    if not (is_pipe_fd fd) || not (is_read_fd fd)
    then (neg 5, [], pipes)
    else (let (r, bytes, q) = read_pipe (pipe_at pipes (pipe_index fd)) room in
        (r, bytes, set pipes (pipe_index fd) q))

-- `if refs > 0 { refs -= 1; }`, then the end is shut if no reference is left.
pub close_end : Bool → Pipe → Pipe
close_end true p = record p {
  read_refs = p.read_refs - 1;
  read_open = if p.read_refs - 1 == 0 then false else p.read_open;
}
close_end false p = record p {
  write_refs = p.write_refs - 1;
  write_open = if p.write_refs - 1 == 0 then false else p.write_open;
}

pub close : Pipes → ℤ → ℤ × Pipes
unfolding is_pipe_fd is_read_fd pipe_index pipe_at close_end
close pipes fd = if not (is_pipe_fd fd) then (neg 5, pipes) else (
  pos 0,
  set pipes (pipe_index fd) (close_end (is_read_fd fd) (pipe_at pipes (pipe_index fd))),
)
