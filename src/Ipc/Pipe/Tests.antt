-- ===== src/Ipc/Pipe/Tests.antt =====
-- Pipes at concrete inputs.
use oxide_os.Prelude.{◌≡◌, refl, true, false, some, [], ◌∷◌, ◌++◌, if◌then◌else◌, pos, arith}
use oxide_os.Ipc.Pipe.{
  Pipes, pipes_init, alloc, write, read, pipe_at, pipe_index, is_pipe_fd, is_read_fd,
}
use oxide_os.Ipc.Pipe.Valid.{AllValid, contents, pipes_init-AllValid}
use oxide_os.Ipc.Pipe.Fifo.{send, recv, run, run_fifo}
use oxide_os.Ipc.Pipe.Alloc.{alloc-AllValid}
use oxide_os.Ipc.Pipe.Refs.{reachable-AllValid, run_ops, step, allocs, writes, closes}

-- The table after one `alloc`, and after three bytes are written to that pipe.
abbrev one_pipe : Pipes
one_pipe = (alloc pipes_init).1

abbrev filled_pipe : Pipes
filled_pipe = run_ops pipes_init (allocs ∷ writes (pos 81) (7 ∷ 8 ∷ 9 ∷ []) ∷ [])

filled_pipe-AllValid : AllValid filled_pipe
filled_pipe-AllValid = reachable-AllValid (allocs ∷ writes (pos 81) (7 ∷ 8 ∷ 9 ∷ []) ∷ [])

alloc_runs : (alloc pipes_init).0 ≡ some (pos 80, pos 81)
unfolding alloc pipes_init
alloc_runs = refl

reads_back : (read filled_pipe (pos 80) 2).1 ≡ 7 ∷ 8 ∷ []
unfolding run_ops step alloc pipes_init write read
reads_back = refl

one_pipe-AllValid : AllValid one_pipe
one_pipe-AllValid = alloc-AllValid pipes_init pipes_init-AllValid

pipe_81 :
    (is_pipe_fd (pos 81) ≡ true)
    × (is_read_fd (pos 81) ≡ false)
    × ((pipe_at one_pipe (pipe_index (pos 81))).write_open ≡ true)
unfolding is_pipe_fd is_read_fd pipe_at pipe_index alloc pipes_init
pipe_81 = (refl, refl, refl)

pipe_80 :
    (is_pipe_fd (pos 80) ≡ true)
    × (is_read_fd (pos 80) ≡ true)
    × ((pipe_at filled_pipe (pipe_index (pos 80))).read_open ≡ true)
    × (contents (pipe_at filled_pipe (pipe_index (pos 80))) ≡ 7 ∷ 8 ∷ 9 ∷ [])
unfolding is_pipe_fd is_read_fd pipe_at pipe_index contents run_ops step alloc write pipes_init
pipe_80 = (refl, refl, refl, refl)

run_fifo_example :
    let t = run 0 one_pipe (send (1 ∷ 2 ∷ []) ∷ recv 1 ∷ []) in
    AllValid t.after
    × (contents (pipe_at one_pipe 0) ++ t.accepted ≡ t.delivered ++ contents (pipe_at t.after 0))
run_fifo_example =
    run_fifo 0 one_pipe (send (1 ∷ 2 ∷ []) ∷ recv 1 ∷ []) (omega arith) one_pipe-AllValid

alloc_second : (alloc one_pipe).0 ≡ some (pos 82, pos 83)
unfolding alloc pipes_init
alloc_second = refl

reachable-AllValid_example :
    AllValid (run_ops pipes_init (allocs ∷ closes (pos 80) ∷ closes (pos 3) ∷ []))
reachable-AllValid_example = reachable-AllValid (allocs ∷ closes (pos 80) ∷ closes (pos 3) ∷ [])

one_ref :
    ((pipe_at one_pipe (pipe_index (pos 80))).read_refs ≡ 1)
    × ((pipe_at one_pipe (pipe_index (pos 80))).write_refs ≡ 1)
    × ((if is_read_fd (pos 80)
          then (pipe_at one_pipe (pipe_index (pos 80))).read_open
          else (pipe_at one_pipe (pipe_index (pos 80))).write_open)
        ≡ true)
unfolding is_read_fd pipe_at pipe_index alloc pipes_init
one_ref = (refl, refl, refl)

slot_zero :
    ((pipe_at one_pipe 0).read_open ≡ true)
    × ((pipe_at one_pipe 0).write_refs ≡ 1)
    × (contents (pipe_at one_pipe 0) ≡ [])
unfolding pipe_at contents alloc pipes_init
slot_zero = (refl, refl, refl)
