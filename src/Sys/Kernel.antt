-- ===== src/Sys/Kernel.antt =====
-- kernel/src/kernel/sys/syscall.rs: the runtime of the kernel, for the calls on files, pipes,
-- message queues and the console. User memory is a function from addresses to bytes. The RAM file
-- system is mounted. The other calls, and the effects of the other actions, are parameters.
pub mod Pipes
mod Tests
use Prim.Native.Nat.{zero, suc}
use oxide_os.Prelude.{
  ℕ, ◌+◌, ◌-◌, ◌/◌, ◌%◌, ◌^◌, ◌*◌, Bool, true, false, ◌&&◌, Option, none, some, List, [], ◌∷◌, ◌++◌,
  ltb, leb, ◌==◌, if◌then◌else◌, ℤ, pos, neg, get_or, length,
}
use oxide_os.Ipc.Pipe
use oxide_os.Ipc.MsgQueue
use oxide_os.Ipc.MsgQueue.{Queues, Message}
use oxide_os.Ipc.Stdin
use oxide_os.Fs.FdTable.{Devices, World, read_fd, write_fd, close, open_pipe}
use oxide_os.Sys.Call.{Plain, Call, Query, Reply, Action, Slice, SystemInfo}
use oxide_os.Sys.Call.Run.{Runtime}

pub record Kernel (D : Type 0) : Type 0 where
  pub world : World D
  pub queues : Queues
  pub memory : ℕ → ℕ
  pub current_pid : ℕ
  pub current_ticks : ℕ
  -- `user_mode::is_active()`: output is captured for the terminal.
  pub is_active : Bool

-- The bytes of a slice.
unfoldable pub load : (ℕ → ℕ) → ℕ → ℕ → List ℕ
load memory ptr zero = []
load memory ptr (suc n) = memory ptr ∷ load memory (ptr + 1) n

-- Bytes copied to memory.
unfoldable pub store : (ℕ → ℕ) → ℕ → List ℕ → ℕ → ℕ
store memory ptr bytes a =
    if leb ptr a && ltb a (ptr + length bytes) then get_or bytes (a - ptr) 0 else memory a

-- A `u32` in memory, the low byte first.
abbrev pub bytes32 : ℕ → List ℕ
bytes32 n = n % 256 ∷ n / 256 % 256 ∷ n / 256 ^ 2 % 256 ∷ n / 256 ^ 3 % 256 ∷ []

-- A `Message` in memory.
abbrev pub message_bytes : Message → List ℕ
message_bytes msg = bytes32 msg.type_id ++ (bytes32 msg.size ++ msg.bytes)

abbrev pub stored : {D : Type 0} → Kernel D → ℕ → List ℕ → Kernel D
stored k ptr bytes = record k { memory = store k.memory ptr bytes }

module _ (devices : Devices) where
  open devices use {Disk, output_write}

  unfoldable pub fs_read : Kernel Disk → ℤ → Slice → ℤ × Kernel Disk
  fs_read k fd buf =
      let (r, bytes, w) = read_fd devices k.world fd buf.len in
      (r, stored (record k { world = w }) buf.ptr bytes)

  unfoldable pub fs_write_file : Kernel Disk → ℤ → Slice → ℤ × Kernel Disk
  unfolding load
  fs_write_file k fd buf =
      let (r, w) = write_fd devices k.world fd (load k.memory buf.ptr buf.len) in
      (r, record k { world = w })

  unfoldable pub fs_close : Kernel Disk → ℤ → ℤ × Kernel Disk
  fs_close k fd = let (r, w) = close devices k.world fd in (r, record k { world = w })

  unfoldable pub get_char : Kernel Disk → ℤ × Kernel Disk
  get_char k =
      let (c, ring) = Stdin.pop k.world.stdin in
      (
        elim c [ some ch ↦ pos ch | none ↦ neg 6 ],
        record k { world = record k.world { stdin = ring } },
      )

  -- The descriptors are stored only when both were found.
  unfoldable pub pipe_alloc : Kernel Disk → ℕ → ℕ → ℤ × Kernel Disk
  pipe_alloc k read_fd_ptr write_fd_ptr =
      let (raw, pipes) = Pipe.alloc k.world.pipes in
      elim raw [
        | none ↦ (neg 6, record k { world = record k.world { pipes = pipes } })
        | some (raw_r, raw_w) ↦
            let (fds, table) = open_pipe k.world.table raw_r raw_w in
            elim fds [
              | some (rslot, wslot) ↦ (
                pos 0,
                stored
                    (stored (record k { world = record k.world { pipes = pipes; table = table } })
                      read_fd_ptr (bytes32 rslot))
                    write_fd_ptr (bytes32 wslot),
              )
              | none ↦ (
                neg 24,
                record k {
                  world = record k.world {
                    pipes = (Pipe.close (Pipe.close pipes raw_r).1 raw_w).1;
                    table = table;
                  };
                },
              )
            ]
      ]

  unfoldable pub msgrcv : Kernel Disk → ℕ → ℕ → ℤ × Kernel Disk
  msgrcv k id msg_out_ptr =
      let (r, msg, queues) = MsgQueue.msgrcv k.queues id in
      elim msg [
        | some m ↦ (r, stored (record k { queues = queues }) msg_out_ptr (message_bytes m))
        | none ↦ (r, record k { queues = queues })
      ]

  -- What the queue operations return, and the kernel with the new table.
  abbrev pub on_queues : Kernel Disk → ℤ × Queues → ℤ × Kernel Disk
  on_queues k (r, queues) = (r, record k { queues = queues })

  unfoldable pub write_console : Kernel Disk → Slice → Kernel Disk
  unfolding load
  write_console k s =
      if k.is_active
      then record k {
        world = record k.world { disk = output_write k.world.disk (load k.memory s.ptr s.len) };
      }
      else k

  unfoldable pub fill_system_info : Kernel Disk → SystemInfo
  fill_system_info k = record {
    total_memory = 128 * 1024 * 1024;
    free_memory = 64 * 1024 * 1024;
    uptime_ms = k.current_ticks * 1000 / 100;
    process_count = 1;
  }

  module _ (other_call : Call → Kernel Disk → ℤ × Kernel Disk)
      (other_action : Action → Kernel Disk → Kernel Disk) where
    unfoldable pub on_call : Call → Kernel Disk → ℤ × Kernel Disk
    unfolding load
    on_call (Call.fs_read fd buf) k = fs_read k fd buf
    on_call (Call.fs_write_file fd buf) k = fs_write_file k fd buf
    on_call (Call.pipe_alloc r w) k = pipe_alloc k r w
    on_call (Call.pipe2_impl r w _) k = pipe_alloc k r w
    on_call (Call.msgsnd id type_id s) k =
        on_queues k (MsgQueue.msgsnd k.queues id type_id (load k.memory s.ptr s.len))
    on_call (Call.msgrcv id ptr) k = msgrcv k id ptr
    on_call (Call.plain (Plain.fs_close fd)) k = fs_close k fd
    on_call (Call.plain Plain.get_char) k = get_char k
    on_call (Call.plain (Plain.msgq_create id)) k = on_queues k (MsgQueue.msgq_create k.queues id)
    on_call (Call.plain (Plain.msgq_destroy id)) k = on_queues k (MsgQueue.msgq_destroy k.queues id)
    on_call (Call.plain (Plain.msgq_len id)) k = (MsgQueue.msgq_len k.queues id, k)
    on_call c k = other_call c k

    unfoldable pub on_query : (q : Query) → Kernel Disk → Reply q
    on_query Query.current_pid k = k.current_pid
    on_query Query.current_ticks k = k.current_ticks
    on_query Query.fill_system_info k = fill_system_info k

    unfoldable pub on_action : Action → Kernel Disk → Kernel Disk
    on_action (Action.write_console s) k = write_console k s
    on_action (Action.write_byte s b) k = stored k s.ptr (b ∷ [])
    on_action a k = other_action a k

    abbrev pub kernel_runtime : Runtime (Kernel Disk)
    kernel_runtime = record { on_call = on_call; on_query = on_query; on_action = on_action }
