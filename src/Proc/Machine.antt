-- ===== src/Proc/Machine.antt =====
-- kernel/src/kernel/mem/paging_allocator.rs, kernel/src/kernel/proc/elf_loader.rs and
-- kernel/src/kernel/proc/user_mode.rs as the scheduler uses them: the record Machine is a parameter.
-- An allocation returns `none` and a mapping false where it fails.
use oxide_os.Prelude.{ℕ, Bool, Option, List, ℤ}
use oxide_os.Ipc.Pipe.{Pipes}
use oxide_os.Ipc.MsgQueue.{Message, Queues}
use oxide_os.Ipc.Shm.{ShmSegment}
use oxide_os.Proc.Env.{EnvTable}
use oxide_os.Proc.Task.{Task, TaskContext}

-- The statics SCHED and CURRENT_TASK_IDX, and the other tables that the scheduler acts on.
pub record Sched (M : Type 0) : Type 0 where
  pub tasks : List Task
  pub current : ℕ
  pub slice_remaining : ℕ
  pub current_task_idx : ℕ
  pub queues : Queues
  pub pipes : Pipes
  pub segtab : List ShmSegment
  pub env : EnvTable
  pub memory : M

-- `launch_at` and `resume_user_context` run the program until it is back in the kernel, with every
-- call that it makes, and return its exit code.
pub record Machine : Type 1 where
  pub Memory : Type 0
  pub create_user_page_table : Memory → Option ℕ × Memory
  pub map_user_region_in : Memory → ℕ → ℕ → ℕ → Bool → Bool → Bool × Memory
  pub copy_to_region_in : Memory → ℕ → ℕ → List ℕ → Memory
  pub free_user_page_table : Memory → ℕ → Memory
  pub cow_fork_user_page_table : Memory → ℕ → ℕ × ℕ → List (ℕ × ℕ) → Option ℕ × Memory
  pub is_elf : List ℕ → Bool
  pub load_in : Memory → List ℕ → ℕ → Option ℕ × Memory
  pub write_unaligned : Memory → ℕ → Message → Memory
  pub launch_at : Sched Memory → ℕ → ℕ → ℕ → ℤ × Sched Memory
  pub resume_user_context : Sched Memory → TaskContext → ℕ → ℤ × Sched Memory
