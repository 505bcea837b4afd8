-- ===== src/Proc/Spawn.antt =====
-- kernel/src/kernel/proc/scheduler.rs, spawn, fork_task and the queries: the creation of tasks, the
-- numbers of tasks and their output.
pub mod Inherit
pub mod Slots
pub mod Start
mod Tests
use oxide_os.Prelude.{
  ℕ, zero, suc, ◌+◌, ◌-◌, ◌*◌, ◌/◌, ◌%◌, Bool, true, false, not, ◌&&◌, ◌||◌, Option, none, some,
  List, [], ◌∷◌, ◌++◌, map, ltb, leb, ◌==◌, if◌then◌else◌, length, get_or, set, take, drop,
  replicate, min, find_index,
}
use oxide_os.Ipc.Pipe
use oxide_os.Ipc.Pipe.{Pipes}
use oxide_os.Ipc.Shm.{ShmAttach, ShmSegment, segment_pages, empty_attach, max_attach, page_size}
use oxide_os.Fs.FdTable
use oxide_os.Fs.FdTable.{FdTable, FdEntry, is_pipe}
use oxide_os.Proc.Task.{
  TaskState, empty, ready, is_gone, Task, TaskContext, zeroed, max_tasks, user_code_addr,
  user_stack_top, user_stack_pages, task_output_cap, nsig, user_sigtramp, max_mmap_regions,
  empty_region,
}
use oxide_os.Proc.Scheduler.{Tasks, task_at}
use oxide_os.Proc.Argv.{copied, write_argv_to_stack}
use oxide_os.Proc.Machine.{Machine, Sched}

-- The messages of the errors.
pub data TaskError : Type 0 where
  empty_binary max_tasks_reached oom_page_table oom_stack elf_error oom_code oom_fork : TaskError

pub data Outcome : Type 0 where
  started : ℕ → Outcome
  failed : TaskError → Outcome

abbrev pub sigtramp_bytes : List ℕ
sigtramp_bytes = 0x48 ∷ 0xc7 ∷ 0xc0 ∷ 95 ∷ 0 ∷ 0 ∷ 0 ∷ 0xcd ∷ 0x80 ∷ 0x0f ∷ 0x0b ∷ []

abbrev pub stack_base : ℕ
stack_base = user_stack_top - user_stack_pages * page_size

abbrev pub is_free : Task → Bool
is_free t = is_gone t.state

-- The slot's task after `spawn`. The group, the working directory and, behind its length, the name
-- keep what the slot held before.
pub spawned : ℕ → ℕ → ℕ → ℕ → List ℕ → Task → Task
unfolding FdTable.new
spawned slot entry cr3 initial_rsp name t =
    let len = min (length name) 16 in
    record t {
      state = ready;
      first_run = true;
      ctx = zeroed;
      entry = entry;
      cr3 = cr3;
      pid = slot + 1;
      parent_pid = 0;
      fs_base = 0;
      heap_end = 0;
      mmap_end = 0;
      output_len = 0;
      fd_table = FdTable.new;
      pending_signals = 0;
      signal_mask = 0;
      saved_signal_mask = 0;
      in_sigsuspend = false;
      alarm_deadline = 0;
      signal_handlers = replicate nsig 0;
      shm_attaches = replicate max_attach empty_attach;
      mmap_regions = replicate max_mmap_regions empty_region;
      mmap_nregions = 0;
      initial_rsp = initial_rsp;
      name = copied t.name 0 (take len name);
      name_len = len;
    }

-- The child's slot after `fork_task`.
pub forked : ℕ → TaskContext → ℕ → Task → Task → Task
forked slot ctx cr3 parent t = record t {
  state = ready;
  ctx = ctx;
  first_run = false;
  entry = parent.entry;
  cr3 = cr3;
  pid = slot + 1;
  parent_pid = parent.pid;
  pgid = parent.pgid;
  heap_end = parent.heap_end;
  mmap_end = parent.mmap_end;
  output_len = 0;
  fd_table = parent.fd_table;
  cwd = parent.cwd;
  cwd_len = parent.cwd_len;
  pending_signals = 0;
  signal_mask = 0;
  saved_signal_mask = 0;
  in_sigsuspend = false;
  alarm_deadline = 0;
  signal_handlers = parent.signal_handlers;
  shm_attaches = replicate max_attach empty_attach;
  mmap_regions = parent.mmap_regions;
  mmap_nregions = parent.mmap_nregions;
  name = parent.name;
  name_len = parent.name_len;
}

-- The address ranges of the shared segments.
pub shm_ranges : List ShmSegment → List ShmAttach → List (ℕ × ℕ)
unfolding segment_pages
shm_ranges segtab [] = []
shm_ranges segtab (a ∷ rest) =
    let pages = segment_pages segtab a.shmid in
    let ranges = shm_ranges segtab rest in
    if not a.active || (pages == 0) then ranges else (a.vaddr, a.vaddr + pages * page_size) ∷ ranges

-- A reference more for each pipe end in the table.
pub addref_entry : Option FdEntry → Pipes → Pipes
unfolding Pipe.addref
addref_entry none pipes = pipes
addref_entry (some e) pipes = if is_pipe e.backend then Pipe.addref pipes e.raw_fd else pipes

pub addref_all : FdTable → Pipes → Pipes
unfolding addref_entry
addref_all [] pipes = pipes
addref_all (o ∷ rest) pipes = addref_all rest (addref_entry o pipes)

-- The first free slot other than `parent_idx`, from index `i` on.
pub free_slot_from : ℕ → ℕ → Tasks → Option ℕ
free_slot_from parent_idx i [] = none
free_slot_from parent_idx i (t ∷ tasks) =
    let rest = free_slot_from parent_idx (suc i) tasks in
    if not (i == parent_idx) && is_free t then some i else rest

module _ (machine : Machine) where
  open machine use {
    Memory, create_user_page_table, map_user_region_in, copy_to_region_in, cow_fork_user_page_table,
    is_elf, load_in,
  }

  -- The entry point, with the program in its pages.
  pub load_code : Memory → List ℕ → ℕ → Outcome × Memory
  load_code m code cr3 =
      let (loaded, m1) = load_in m code cr3 in
      let pages = (length code + page_size - 1) / page_size in
      let (mapped, m2) = map_user_region_in m cr3 user_code_addr pages true true in
      if is_elf code
      then (elim loaded [ none ↦ failed elf_error | some entry ↦ started entry ], m1)
      else if mapped
      then (started user_code_addr, copy_to_region_in m2 cr3 user_code_addr code)
      else (failed oom_code, m2)

  -- The trampoline, where its page can be mapped, and the arguments on the stack.
  pub prepared : Memory → ℕ → ℕ × List ℕ → Memory
  prepared m cr3 argv =
      let (mapped, m1) = map_user_region_in m cr3 user_sigtramp 1 true true in
      let m2 = if mapped then copy_to_region_in m1 cr3 user_sigtramp sigtramp_bytes else m1 in
      if length argv.1 == 0 then m2 else copy_to_region_in m2 cr3 argv.0 argv.1

  -- The slot filled, with the program in its pages.
  pub install : Sched Memory → ℕ → ℕ → ℕ → List ℕ → Memory → Sched Memory
  unfolding task_at spawned prepared write_argv_to_stack
  install s slot cr3 entry name m =
      let argv = write_argv_to_stack s.env user_stack_top (name ∷ []) in
      record s {
        memory = prepared m cr3 argv;
        tasks = set s.tasks slot (spawned slot entry cr3 argv.0 name (task_at s.tasks slot));
      }

  pub spawn : Sched Memory → List ℕ → List ℕ → Outcome × Sched Memory
  unfolding find_index load_code install
  spawn s code name =
      if length code == 0 then (failed empty_binary, s) else elim (find_index is_free s.tasks) [
        | none ↦ (failed max_tasks_reached, s)
        | some slot ↦
            let created = create_user_page_table s.memory in
            elim created.0 [
              | none ↦ (failed oom_page_table, record s { memory = created.1 })
              | some cr3 ↦
                  let stack =
                    map_user_region_in created.1 cr3 stack_base user_stack_pages true false in
                  let loaded = load_code stack.1 code cr3 in
                  if stack.0
                  then elim loaded.0 [
                    | failed e ↦ (failed e, record s { memory = loaded.1 })
                    | started entry ↦ (started (slot + 1), install s slot cr3 entry name loaded.1)
                  ]
                  else (failed oom_stack, record s { memory = stack.1 })
            ]
      ]

  pub fork_task : Sched Memory → ℕ → TaskContext → Outcome × Sched Memory
  unfolding task_at free_slot_from shm_ranges forked addref_all
  fork_task s parent_idx child_ctx = elim (free_slot_from parent_idx 0 s.tasks) [
    | none ↦ (failed max_tasks_reached, s)
    | some slot ↦
        let parent = task_at s.tasks parent_idx in
        let ranges = shm_ranges s.segtab parent.shm_attaches in
        let shared =
          cow_fork_user_page_table s.memory parent.cr3 (stack_base, user_stack_top) ranges in
        elim shared.0 [
          | none ↦ (failed oom_fork, record s { memory = shared.1 })
          | some cr3 ↦ (
            started (slot + 1),
            record s {
              memory = shared.1;
              tasks = set s.tasks slot (forked slot child_ctx cr3 parent (task_at s.tasks slot));
              pipes = addref_all parent.fd_table s.pipes;
            },
          )
        ]
  ]

-- The number of unfinished tasks, and whether there is one.
pub task_count : Tasks → ℕ
task_count [] = 0
task_count (t ∷ tasks) = let n = task_count tasks in if is_free t then n else suc n

pub has_task : Tasks → Bool
has_task [] = false
has_task (t ∷ tasks) = let rest = has_task tasks in if is_free t then rest else true

pub record TaskInfo : Type 0 where
  pub pid : ℕ
  pub name : List ℕ
  pub name_len : ℕ
  pub state : TaskState

pub task_infos : Tasks → List TaskInfo
task_infos tasks =
    map (λ t. record { pid = t.pid; name = t.name; name_len = t.name_len; state = t.state }) tasks

-- What a task writes to its output goes behind what is there, as far as there is room.
pub output_write_for_task : Tasks → ℕ → List ℕ → Tasks
unfolding task_at
output_write_for_task tasks idx bytes =
    let t = task_at tasks idx in
    let n = min (length bytes) (task_output_cap - t.output_len) in
    if leb max_tasks idx
    then tasks
    else set tasks idx (record t {
      output = copied t.output t.output_len (take n bytes);
      output_len = t.output_len + n;
    })
