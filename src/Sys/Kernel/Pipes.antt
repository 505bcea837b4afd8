-- ===== src/Sys/Kernel/Pipes.antt =====
-- A message from one part of a program's memory to another through the descriptors of a pipe: the
-- dispatcher's calls, the table of open files and the pipe together.
use oxide_os.Prelude.{
  ℕ, zero, suc, ◌+◌, ◌-◌, ◌≤◌, ◌<◌, ◌≡◌, ◌≢◌, ◌==◌, ltb, leb, ◌&&◌, ◌||◌, not, true, false, some,
  List, [], ◌∷◌, ◌++◌, ℤ, pos, refl, sym, ap, ap₂, ◌∙◌, length, take, take-all, get_or, min, arith,
}
use oxide_os.Ipc.Pipe.{Pipes, Pipe, pipe_at, pipe_index, is_pipe_fd, is_read_fd}
use oxide_os.Ipc.Pipe
use oxide_os.Ipc.Pipe.Valid.{AllValid, contents, capacity}
use oxide_os.Ipc.Pipe.Fifo.{write_lem, read_lem}
use oxide_os.Fs.FdTable.{Devices, World, FdBackend, entry, entry_at, read_fd, write_fd}
use oxide_os.Sys.Guard.{InUser}
use oxide_os.Sys.Call.{Call, Action, slice, ok_result, finish, forward}
use oxide_os.Sys.Call.Checked.{checked_inside}
use oxide_os.Sys.Call.Run.{Runtime, run, run-call}
use oxide_os.Sys.Files.{sys_read, sys_write}
use oxide_os.Sys.Kernel.{
  Kernel, load, store, stored, fs_read, fs_write_file, on_call, kernel_runtime,
}

length-load : (memory : ℕ → ℕ) (ptr n : ℕ) → length (load memory ptr n) ≡ n
unfolding load
length-load memory ptr zero = refl
length-load memory ptr (suc n) = ap suc (length-load memory (ptr + 1) n)

-- Memory that holds the bytes of a list from `ptr` on.
load-holds :
    (f : ℕ → ℕ) (ptr : ℕ) (xs : List ℕ)
    → ((i : ℕ) → i < length xs → f (ptr + i) ≡ get_or xs i 0)
    → load f ptr (length xs) ≡ xs
unfolding load
load-holds f ptr [] h = refl
load-holds f ptr (x ∷ xs) h =
    ap₂ ◌∷◌ (ap f no_offset ∙ h 0 (omega arith))
      (load-holds f (ptr + 1) xs (λ i l. ap f (next i) ∙ h (suc i) (omega (arith, l))))
  where
    no_offset : ptr ≡ ptr + 0
    no_offset = omega arith

    next : (i : ℕ) → ptr + 1 + i ≡ ptr + suc i
    next i = omega arith

load-store :
    (memory : ℕ → ℕ) (ptr : ℕ) (xs : List ℕ) → load (store memory ptr xs) ptr (length xs) ≡ xs
unfolding store
load-store memory ptr xs = load-holds (store memory ptr xs) ptr xs covered
  where
    covered : (i : ℕ) → i < length xs → store memory ptr xs (ptr + i) ≡ get_or xs i 0
    covered i l = simp (inside, offset) refl
      where
        inside : (leb ptr (ptr + i) && ltb (ptr + i) (ptr + length xs)) ≡ true
        inside = ground (arith, l)

        offset : ptr + i - ptr ≡ i
        offset = omega arith

-- Bytes written to an empty pipe are what a read with enough room delivers.
read-write :
    (pipes : Pipes) (wfd rfd : ℤ) (bytes : List ℕ) (room : ℕ)
    → AllValid pipes
    → is_pipe_fd wfd ≡ true
    → is_read_fd wfd ≡ false
    → is_pipe_fd rfd ≡ true
    → is_read_fd rfd ≡ true
    → pipe_index rfd ≡ pipe_index wfd
    → (pipe_at pipes (pipe_index wfd)).write_open ≡ true
    → (pipe_at pipes (pipe_index wfd)).read_open ≡ true
    → contents (pipe_at pipes (pipe_index wfd)) ≡ []
    → 0 < length bytes
    → length bytes ≤ capacity
    → length bytes ≤ room
    → ((Pipe.write pipes wfd bytes).0 ≡ pos (length bytes))
      × ((Pipe.read (Pipe.write pipes wfd bytes).1 rfd room).0 ≡ pos (length bytes))
      × ((Pipe.read (Pipe.write pipes wfd bytes).1 rfd room).1 ≡ bytes)
read-write pipes wfd rfd bytes room v w1 w2 r1 r2 same wo ro none_left some_bytes fits enough =
    let (q, count, queued, ends, only) = write_lem pipes wfd bytes v w1 w2 wo in
    let held : contents q ≡ bytes =
      queued
      ∙ ap (λ c. c ++ take (capacity - length c) bytes) none_left
      ∙ take-all capacity bytes fits in
    let here : contents (pipe_at (Pipe.write pipes wfd bytes).1 (pipe_index rfd)) ≡ bytes =
      ap (λ i. contents (pipe_at (Pipe.write pipes wfd bytes).1 i)) same
      ∙ ap contents only.here
      ∙ held in
    let (_, got, taken, _, _, _) =
      read_lem (Pipe.write pipes wfd bytes).1 rfd room only.valid r1 r2
        (ap (λ i. (pipe_at (Pipe.write pipes wfd bytes).1 i).read_open) same
          ∙ ap (λ p. p.read_open) only.here
          ∙ ends.read_end
          ∙ ro)
        (λ e. nonempty (sym here ∙ e)) in
    (
      count
          ∙ ap (λ c. pos (min (length bytes) (capacity - length c))) none_left
          ∙ ap pos (omega (arith, fits)),
      got ∙ ap (λ c. pos (min room (length c))) here ∙ ap pos (omega (arith, enough)),
      taken ∙ ap (take room) here ∙ take-all room bytes enough,
    )
  where
    nonempty : bytes ≢ []
    nonempty e = omega (arith, some_bytes, ap length e)

-- Two descriptors of a task are the ends of one pipe, as `pipe` leaves them, which is open and empty.
pub record Connected {D : Type 0} (k : Kernel D) (w r : ℕ) (wfd rfd : ℤ) : Type 0 where
  pub write_entry : entry_at k.world.table w ≡ some (entry FdBackend.pipe 0 wfd 0 true false)
  pub read_entry : entry_at k.world.table r ≡ some (entry FdBackend.pipe 0 rfd 0 false false)
  pub valid : AllValid k.world.pipes
  pub writes : (is_pipe_fd wfd ≡ true) × (is_read_fd wfd ≡ false)
  pub reads : (is_pipe_fd rfd ≡ true) × (is_read_fd rfd ≡ true)
  pub one_pipe : pipe_index rfd ≡ pipe_index wfd
  pub write_end : (pipe_at k.world.pipes (pipe_index wfd)).write_open ≡ true
  pub read_end : (pipe_at k.world.pipes (pipe_index wfd)).read_open ≡ true
  pub drained : contents (pipe_at k.world.pipes (pipe_index wfd)) ≡ []

-- A descriptor that is not one of the three standard ones.
abbrev pub IsOwn : ℕ → Type 0
IsOwn fd = (3 ≤ fd) × (fd < 32)

module _ (devices : Devices) (other_call : Call → Kernel devices.Disk → ℤ × Kernel devices.Disk)
    (other_action : Action → Kernel devices.Disk → Kernel devices.Disk) where
  open devices use {Disk}

  abbrev rt : Runtime (Kernel Disk)
  rt = kernel_runtime devices other_call other_action

  -- A forwarded call that succeeds.
  run-forward :
      (c : Call) (k : Kernel Disk) (n : ℕ) (after : Kernel Disk)
      → on_call devices other_call other_action c k ≡ (pos n, after)
      → run rt (forward c) k ≡ (some (ok_result (pos n)), after)
  unfolding run
  run-forward c k n after e = run-call rt c finish k (pos n, after) e ∙ simp (nonneg) refl
    where
      nonneg : ltb n 0 ≡ false
      nonneg = ground arith

  write_fd-pipe :
      (w : World Disk) (fd : ℕ) (raw : ℤ) (bytes : List ℕ)
      → fd < 32
      → entry_at w.table fd ≡ some (entry FdBackend.pipe 0 raw 0 true false)
      → write_fd devices w (pos fd) bytes
        ≡ ((Pipe.write w.pipes raw bytes).0, record w { pipes = (Pipe.write w.pipes raw bytes).1 })
  unfolding write_fd
  write_fd-pipe w fd raw bytes small here = simp (inside, here) refl
    where
      inside : (ltb fd 0 || leb 32 fd) ≡ false
      inside = ground (arith, small)

  read_fd-pipe :
      (w : World Disk) (fd : ℕ) (raw : ℤ) (room : ℕ)
      → fd < 32
      → entry_at w.table fd ≡ some (entry FdBackend.pipe 0 raw 0 false false)
      → read_fd devices w (pos fd) room ≡ (
        (Pipe.read w.pipes raw room).0,
        (Pipe.read w.pipes raw room).1,
        record w { pipes = (Pipe.read w.pipes raw room).2 },
      )
  unfolding read_fd
  read_fd-pipe w fd raw room small here = simp (inside, here) refl
    where
      inside : (ltb fd 0 || leb 32 fd) ≡ false
      inside = ground (arith, small)

  -- The kernel after a write to a pipe, and after a read of one.
  abbrev wrote : Kernel Disk → ℤ → List ℕ → Kernel Disk
  wrote k raw bytes = record k {
    world = record k.world { pipes = (Pipe.write k.world.pipes raw bytes).1 };
  }

  abbrev took : Kernel Disk → ℤ → ℕ → ℕ → Kernel Disk
  took k raw ptr room =
      stored (record k { world = record k.world { pipes = (Pipe.read k.world.pipes raw room).2 } })
        ptr (Pipe.read k.world.pipes raw room).1

  sys_write-pipe :
      (k : Kernel Disk) (fd : ℕ) (raw : ℤ) (ptr n : ℕ)
      → IsOwn fd
      → entry_at k.world.table fd ≡ some (entry FdBackend.pipe 0 raw 0 true false)
      → InUser ptr n
      → (Pipe.write k.world.pipes raw (load k.memory ptr n)).0 ≡ pos n
      → run rt (sys_write (pos fd) ptr n) k
        ≡ (some (ok_result (pos n)), wrote k raw (load k.memory ptr n))
  unfolding sys_write on_call fs_write_file
  sys_write-pipe k fd raw ptr n own here h count =
      simp (not_neg, not_std, own_fd, checked_inside ptr n _ h)
        (run-forward (Call.fs_write_file (pos fd) (slice ptr n)) k n
          (wrote k raw (load k.memory ptr n))
          (ap (λ p. (p.0, record k { world = p.1 }))
              (write_fd-pipe k.world fd raw (load k.memory ptr n) own.1 here)
            ∙ ap (λ c. (c, wrote k raw (load k.memory ptr n))) count))
    where
      not_neg : ltb fd 0 ≡ false
      not_neg = ground arith

      not_std : (not (ltb fd 1 || ltb 1 fd) || not (ltb fd 2 || ltb 2 fd)) ≡ false
      not_std = ground (arith, own)

      own_fd : leb 3 fd ≡ true
      own_fd = ground (arith, own)

  sys_read-pipe :
      (k : Kernel Disk) (fd : ℕ) (raw : ℤ) (ptr room n : ℕ)
      → IsOwn fd
      → entry_at k.world.table fd ≡ some (entry FdBackend.pipe 0 raw 0 false false)
      → InUser ptr room
      → 0 < room
      → (Pipe.read k.world.pipes raw room).0 ≡ pos n
      → run rt (sys_read (pos fd) ptr room) k ≡ (some (ok_result (pos n)), took k raw ptr room)
  unfolding sys_read on_call fs_read
  sys_read-pipe k fd raw ptr room n own here h some_room count =
      simp (nonzero, not_stdin, checked_inside ptr room _ h)
        (run-forward (Call.fs_read (pos fd) (slice ptr room)) k n (took k raw ptr room) (
          ap (λ p. (p.0, stored (record k { world = p.2 }) ptr p.1))
            (read_fd-pipe k.world fd raw room own.1 here)
          ∙ ap (λ c. (c, took k raw ptr room)) count))
    where
      nonzero : (room == 0) ≡ false
      nonzero = ground (arith, some_room)

      not_stdin : (ltb fd 0 || ltb 0 fd) ≡ true
      not_stdin = ground (arith, own)

  -- A program writes `n` bytes of its memory, from one to the capacity of a pipe, to the write end
  -- of an open empty pipe and then reads the read end into a buffer with room for them, both of
  -- them in user memory and the descriptors not the standard ones. Both calls succeed and return
  -- `n`, and the buffer then starts with the bytes that were written.
  pub sys_read-sys_write :
      (k : Kernel Disk) (w r : ℕ) (wfd rfd : ℤ) (a n b room : ℕ)
      → Connected k w r wfd rfd
      → IsOwn w
      → IsOwn r
      → InUser a n
      → InUser b room
      → 0 < n
      → n ≤ capacity
      → n ≤ room
      → let sent = run rt (sys_write (pos w) a n) k in
        let got = run rt (sys_read (pos r) b room) sent.1 in
        (sent.0 ≡ some (ok_result (pos n)))
        × (got.0 ≡ some (ok_result (pos n)))
        × (load got.1.memory b n ≡ load k.memory a n)
  sys_read-sys_write k w r wfd rfd a n b room c own_w own_r in_a in_b some_bytes fits enough =
      let (count, got, taken) = through in
      let written = sys_write-pipe k w wfd a n own_w c.write_entry in_a (count ∙ ap pos size) in
      let back =
        sys_read-pipe (wrote k wfd bytes) r rfd b room n own_r c.read_entry in_b
          (omega (arith, some_bytes, enough)) (got ∙ ap pos size) in
      let all = ap (λ s. run rt (sys_read (pos r) b room) s.1) written ∙ back in
      (
        ap (λ s. s.0) written,
        ap (λ s. s.0) all,
        ap (λ s. load s.1.memory b n) all
            ∙ ap (λ xs. load (store k.memory b xs) b n) taken
            ∙ ap (load (store k.memory b bytes) b) (sym size)
            ∙ load-store k.memory b bytes,
      )
    where
      bytes : List ℕ
      bytes = load k.memory a n

      size : length bytes ≡ n
      size = length-load k.memory a n

      through :
          ((Pipe.write k.world.pipes wfd bytes).0 ≡ pos (length bytes))
          × ((Pipe.read (Pipe.write k.world.pipes wfd bytes).1 rfd room).0 ≡ pos (length bytes))
          × ((Pipe.read (Pipe.write k.world.pipes wfd bytes).1 rfd room).1 ≡ bytes)
      through =
          read-write k.world.pipes wfd rfd bytes room c.valid c.writes.0 c.writes.1 c.reads.0
            c.reads.1 c.one_pipe c.write_end c.read_end c.drained (omega (arith, size, some_bytes))
            (omega (arith, size, fits)) (omega (arith, size, enough))
