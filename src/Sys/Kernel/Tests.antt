-- ===== src/Sys/Kernel/Tests.antt =====
-- The kernel's calls at concrete inputs.
use oxide_os.Prelude.{ℕ, ◌≡◌, refl, true, false, some, [], List, pos, neg, ℤ, inr, arith, set}
use oxide_os.Ipc.Pipe.{
  pipes_init, alloc, alloc_from, opened, pipe_at, pipe_index, is_pipe_fd, is_read_fd,
}
use oxide_os.Ipc.Pipe.Valid.{contents, pipes_init-AllValid}
use oxide_os.Ipc.Pipe.Alloc.{alloc-AllValid}
use oxide_os.Ipc.MsgQueue.{queues_init}
use oxide_os.Ipc.Stdin.{ring_init, push}
use oxide_os.Fs.FdTable.{Devices, FdBackend, entry, new}
use oxide_os.Sys.Call.{Call, Action, ok_result}
use oxide_os.Sys.Call.Run.{run}
use oxide_os.Sys.Files.{sys_read, sys_write}
use oxide_os.Sys.Kernel.{Kernel, load, kernel_runtime}
use oxide_os.Sys.Kernel.Pipes.{Connected, sys_read-sys_write}

-- A console that keeps what is written, and no disks.
abbrev console : Devices
console = record {
  Disk = List ℕ;
  fat_close = λ d _. d;
  fat_read = λ d _ _. (neg 5, [], d);
  fat_write = λ d _ _. (neg 5, d);
  ext2_close = λ d _. d;
  ext2_read = λ d _ _. (neg 5, [], d);
  ext2_write = λ d _ _. (neg 5, d);
  output_write = λ _ bytes. bytes;
}

-- The calls that are not modelled fail, and the actions do nothing.
abbrev no_call : Call → Kernel (List ℕ) → ℤ × Kernel (List ℕ)
no_call _ k = (neg 2, k)

abbrev no_action : Action → Kernel (List ℕ) → Kernel (List ℕ)
no_action _ k = k

-- A task with no open files, a key that waits, and a memory in which a byte is its address's.
abbrev idle : Kernel (List ℕ)
idle = record {
  world = record {
    table = new;
    fs = [];
    pipes = (alloc pipes_init).1;
    stdin = push ring_init 65;
    disk = [];
  };
  queues = queues_init;
  memory = λ a. a;
  current_pid = 1;
  current_ticks = 0;
  is_active = true;
}

-- The same task after `pipe`.
abbrev piped : Kernel (List ℕ)
piped = record idle {
  world = record idle.world {
    table =
        set (set new 3 (some (entry FdBackend.pipe 0 (pos 80) 0 false false))) 4
          (some (entry FdBackend.pipe 0 (pos 81) 0 true false));
  };
}

piped-Connected : Connected piped 4 3 (pos 81) (pos 80)
unfolding new is_pipe_fd is_read_fd pipe_index pipe_at alloc alloc_from opened pipes_init contents
piped-Connected = record {
  write_entry = refl;
  read_entry = refl;
  valid = alloc-AllValid pipes_init pipes_init-AllValid;
  writes = (refl, refl);
  reads = (refl, refl);
  one_pipe = refl;
  write_end = refl;
  read_end = refl;
  drained = refl;
}

sys_read-sys_write_example :
    let rt = kernel_runtime console no_call no_action in
    let sent = run rt (sys_write (pos 4) 0x2000 3) piped in
    let got = run rt (sys_read (pos 3) 0x3000 16) sent.1 in
    (sent.0 ≡ some (ok_result (pos 3)))
    × (got.0 ≡ some (ok_result (pos 3)))
    × (load got.1.memory 0x3000 3 ≡ load piped.memory 0x2000 3)
sys_read-sys_write_example =
    sys_read-sys_write console no_call no_action piped 4 3 (pos 81) (pos 80) 0x2000 3 0x3000 16
      piped-Connected (omega arith, omega arith) (omega arith, omega arith)
      (inr (omega arith, omega arith)) (inr (omega arith, omega arith)) (omega arith) (omega arith)
      (omega arith)
