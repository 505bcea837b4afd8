-- ===== src/Sys/Signals/Tests.antt =====
-- Signal calls on an empty task.
use oxide_os.Prelude.{
  ℕ, refl, ◌≡◌, inr, false, leb, ◌&&◌, if◌then◌else◌, some, List, [], ◌∷◌, ◌-◌, ◌^◌, All, arith,
}
use oxide_os.Proc.Task.{Task, empty_task}
use oxide_os.Sys.Guard.{InUser}
use oxide_os.Sys.Signals.Masks.{
  Op, masks, suspends, returns, handles, pendings, step, run_ops, NeverBlocked, PointsToUser,
  reachable-NeverBlocked,
}
use oxide_os.Sys.Signals.{
  Store, sigprocmask, sigsuspend, sigreturn, sigaction, sigpending, changed_mask, restored,
}

-- A task whose mask is at 0xFFFF_8000_0000_1000.
abbrev in_kernel : Store
in_kernel a v t =
    if leb 0xFFFF_8000_0000_1000 a && leb a 0xFFFF_8000_0000_1000
    then record t { signal_mask = v }
    else t

in_kernel_apart : (a v : ℕ) (t : Task) → InUser a 8 → in_kernel a v t ≡ t
in_kernel_apart a v t u = simp (below u) refl
  where
    below : InUser a 8 → (leb 0xFFFF_8000_0000_1000 a && leb a 0xFFFF_8000_0000_1000) ≡ false
    below h = ground (arith, h)

-- Block everything, wait with a mask of bits 0 and 2, and come back from the handler.
abbrev calls : List Op
calls =
    masks 0 (some (2 ^ 32 - 1)) 4096
    ∷ handles 2 8192 0
    ∷ pendings 8192
    ∷ suspends (some 5)
    ∷ returns []
    ∷ []

calls-PointsToUser : All PointsToUser calls
unfolding PointsToUser
calls-PointsToUser = (
  inr (inr (omega arith, omega arith)),
  (tt, (inr (inr (omega arith, omega arith)), (tt, (tt, tt)))),
)

blocks_the_rest : (run_ops in_kernel empty_task calls).signal_mask ≡ 2 ^ 32 - 1 - 2 ^ 8 - 2 ^ 18
unfolding run_ops step empty_task sigprocmask sigsuspend sigreturn sigaction sigpending changed_mask
    restored
blocks_the_rest = refl

reachable-NeverBlocked_example : NeverBlocked (run_ops in_kernel empty_task calls)
reachable-NeverBlocked_example =
    reachable-NeverBlocked in_kernel calls in_kernel_apart calls-PointsToUser
