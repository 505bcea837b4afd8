-- ===== src/Proc/Deliver/Tests.antt =====
-- Delivery to a task with signals 2 and 17 pending, the second one blocked, over a memory that is
-- not looked at.
use oxide_os.Prelude.{ℕ, ◌≡◌, ◌≢◌, ◌≤◌, true, false, none, pos, arith}
use oxide_os.Prelude.Bits.{digit}
use oxide_os.Proc.Task.{Task, empty_task}
use oxide_os.Proc.Machine.{Machine}
use oxide_os.Proc.Deliver.{deliver_loop, deliver_pending_signals}
use oxide_os.Proc.Deliver.Order.{in_order, deliver_loop-in_order}
use oxide_os.Proc.Deliver.Mask.{deliver_keeps}

abbrev blank : Machine
blank = record {
  Memory = ℕ;
  create_user_page_table = λ m. (none, m);
  map_user_region_in = λ m cr3 base pages writable executable. (true, m);
  copy_to_region_in = λ m cr3 base bytes. m;
  free_user_page_table = λ m cr3. m;
  cow_fork_user_page_table = λ m cr3 stack shared. (none, m);
  is_elf = λ code. false;
  load_in = λ m code cr3. (none, m);
  write_unaligned = λ m ptr msg. m;
  launch_at = λ s entry rsp cr3. (pos 0, s);
  resume_user_context = λ s ctx cr3. (pos 0, s);
}

abbrev signalled : Task
signalled = record empty_task { pid = 1; pending_signals = 0x10002; signal_mask = 0x10000 }

deliver_loop-in_order_example :
    deliver_loop blank 40 signalled 0 2 ≡ in_order blank 32 0 signalled 0 2
deliver_loop-in_order_example =
    deliver_loop-in_order blank 40 signalled 0 2 (omega arith) (omega arith)

-- The bit of signal 17.
abbrev blocked : ℕ
blocked = 16

deliver_keeps_example :
    let after = (deliver_pending_signals blank signalled 0).1.pending_signals in
    (digit blocked after ≤ digit blocked 0x10002)
    × (blocked ≢ 8
        → blocked ≢ 18
        → digit blocked 0x10000 ≡ 1
        → digit blocked after ≡ digit blocked 0x10002)
deliver_keeps_example = deliver_keeps blank blocked signalled 0 (omega arith) (omega arith)
