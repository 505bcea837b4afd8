-- ===== src/Ipc/Shm/Reach.antt =====
-- Every sequence of calls on the shared segments.
use oxide_os.Prelude.{ℕ, ◌+◌, ◌*◌, ◌≤◌, ◌≡◌, ◌≢◌, ◌⊎◌, true, List, [], ◌∷◌}
use oxide_os.Ipc.Shm.{Paging, State, shmget, shmat, shmdt, segment_at, attach_at, page_size}
use oxide_os.Ipc.Shm.Valid.{attachments_disjoint}
use oxide_os.Ipc.Shm.Ops.{shmget-Valid}
use oxide_os.Ipc.Shm.Keep.{
  segtab_init, attaches_init, segtab_init-SegtabValid, attaches_init-AttachesValid, StateValid,
  shmat-Valid, shmdt-Valid,
}

-- A program's calls, with the page table for `shmat`.
pub data Op : Type 0 where
  gets attaches : ℕ → ℕ → Op
  detaches : ℕ → Op

module _ (paging : Paging) where
  open paging use {Memory}

  abbrev pub boot : Memory → State Memory
  boot memory = record { segtab = segtab_init; attaches = attaches_init; memory = memory }

  unfoldable pub step : State Memory → Op → State Memory
  step s (gets key size) = (shmget paging s key size).1
  step s (attaches shmid cr3) = (shmat paging s shmid cr3).1
  step s (detaches addr) = (shmdt paging s addr).1

  unfoldable pub run_ops : State Memory → List Op → State Memory
  run_ops s [] = s
  run_ops s (op ∷ ops) = run_ops (step s op) ops

  step-StateValid :
      (s : State Memory) (op : Op) → StateValid paging s → StateValid paging (step s op)
  unfolding step
  step-StateValid s (gets key size) v = shmget-Valid paging s key size v.0 v.1
  step-StateValid s (attaches shmid cr3) v = shmat-Valid paging s shmid cr3 v
  step-StateValid s (detaches addr) v = shmdt-Valid paging s addr v

  run_ops-StateValid :
      (s : State Memory) (ops : List Op) → StateValid paging s → StateValid paging (run_ops s ops)
  unfolding run_ops
  run_ops-StateValid s [] v = v
  run_ops-StateValid s (op ∷ ops) v = run_ops-StateValid (step s op) ops (step-StateValid s op v)

  -- From the tables at boot, after any calls of one process: the keys of the segments in use are
  -- distinct and their sizes within the limit, and an attachment is to a segment in use, at its
  -- address and the only one to it.
  pub reachable-StateValid :
      (memory : Memory) (ops : List Op) → StateValid paging (run_ops (boot memory) ops)
  reachable-StateValid memory ops =
      run_ops-StateValid (boot memory) ops
        (segtab_init-SegtabValid, attaches_init-AttachesValid segtab_init)

  -- The ranges of attachments `i` and `j` in a state, from the address of each on for as many pages
  -- as its segment has, do not meet.
  abbrev pub Apart : State Memory → ℕ → ℕ → Type 0
  Apart s i j =
      let a = attach_at s.attaches i in
      let b = attach_at s.attaches j in
      (a.vaddr + (segment_at s.segtab a.shmid).pages * page_size ≤ b.vaddr)
      ⊎ (b.vaddr + (segment_at s.segtab b.shmid).pages * page_size ≤ a.vaddr)

  -- From the tables at boot, after any calls of shmget, shmat and shmdt of one process, with any
  -- keys, sizes, numbers and addresses: two different attachments that are active occupy ranges of
  -- addresses that do not meet.
  pub reachable-Apart :
      (memory : Memory) (ops : List Op) (i j : ℕ)
      → let s = run_ops (boot memory) ops in
        (attach_at s.attaches i).active ≡ true
        → (attach_at s.attaches j).active ≡ true
        → i ≢ j
        → Apart s i j
  reachable-Apart memory ops i j hi hj ne =
      let s = run_ops (boot memory) ops in
      let v = reachable-StateValid memory ops in
      attachments_disjoint s.segtab s.attaches i j v.0 v.1 hi hj ne
