-- ===== src/Ipc/Shm/Tests.antt =====
-- Shared memory at concrete inputs, over an allocator that hands out frames one after another.
use oxide_os.Prelude.{ℕ, ◌+◌, ◌*◌, ◌≡◌, refl, true, List, [], ◌∷◌, pos, neg, arith}
use oxide_os.Ipc.Shm.{Paging, State, segment_at, shmget, shmat, shmdt, page_size}
use oxide_os.Ipc.Shm.Ops.{shmget-Valid}
use oxide_os.Ipc.Shm.Reach.{
  Op, gets, attaches, detaches, run_ops, Apart, reachable-StateValid, reachable-Apart,
}
use oxide_os.Ipc.Shm.Reach
use oxide_os.Ipc.Shm.Round.{shmdt-shmat}
use oxide_os.Ipc.Shm.Keep.{
  segtab_init, attaches_init, segtab_init-SegtabValid, attaches_init-AttachesValid, StateValid,
}

abbrev bump : Paging
bump = record {
  Memory = ℕ;
  alloc_phys_frames = λ next pages. (next, next + pages * page_size);
  map_phys_pages_in = λ m cr3 virt phys pages writable. (true, m);
}

abbrev boot : State ℕ
boot = record { segtab = segtab_init; attaches = attaches_init; memory = 0x10_0000 }

boot-Valid : StateValid bump boot
boot-Valid = (segtab_init-SegtabValid, attaches_init-AttachesValid segtab_init)

-- A segment of two pages.
abbrev got : State ℕ
got = (shmget bump boot 77 5000).1

got-Valid : StateValid bump got
got-Valid = shmget-Valid bump boot 77 5000 boot-Valid.0 boot-Valid.1

segment_runs :
    ((shmget bump boot 77 5000).0 ≡ pos 0)
    × ((segment_at got.segtab 0).pages ≡ 2)
    × ((shmget bump got 78 0x10_0001).0 ≡ neg 22)
    × ((shmat bump got 0 9).0 ≡ pos 0x2000_0000)
    × ((shmat bump got 1 9).0 ≡ neg 22)
unfolding shmget shmat segtab_init attaches_init
segment_runs = (refl, refl, refl, refl, refl)

shmdt-shmat_example :
    shmdt bump (shmat bump got 0 9).1 0x2000_0000
    ≡ (pos 0, record got { memory = (shmat bump got 0 9).1.memory })
unfolding shmat shmget segtab_init attaches_init
shmdt-shmat_example =
    shmdt-shmat bump got 0 9 0x2000_0000 got-Valid.0 got-Valid.1 (omega arith) refl refl

-- Two segments, both attached.
abbrev calls : List Op
calls = gets 77 5000 ∷ gets 78 4096 ∷ attaches 0 9 ∷ attaches 1 9 ∷ []

reachable-Apart_example : Apart bump (run_ops bump (Reach.boot bump 0x10_0000) calls) 0 1
unfolding run_ops Reach.step shmat shmget segtab_init attaches_init
reachable-Apart_example = reachable-Apart bump 0x10_0000 calls 0 1 refl refl (omega arith)

reachable-StateValid_example : StateValid bump (
    run_ops bump
      (Reach.boot bump 0x10_0000)
      (gets 77 5000 ∷ attaches 0 9 ∷ detaches 0x2000_0000 ∷ []))
reachable-StateValid_example =
    reachable-StateValid bump 0x10_0000 (gets 77 5000 ∷ attaches 0 9 ∷ detaches 0x2000_0000 ∷ [])
