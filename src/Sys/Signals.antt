-- ===== src/Sys/Signals.antt =====
-- kernel/src/kernel/sys/syscall.rs: the system calls on signals, on the calling task. A pointer
-- of the caller that is read is the value read through it, or none for a null pointer. What a store
-- of eight bytes at an address does to the task is a parameter, since an address that is not checked
-- may be that of the task itself. The registers that `sigreturn` reads from the task's stack are
-- bytes from a parameter.
pub mod Masks
mod Tests
use Prim.Native.Nat.{bit_and, bit_or}
use oxide_os.Prelude.{
  ℕ, zero, suc, ◌+◌, ◌-◌, ◌*◌, ◌/◌, ◌%◌, ◌^◌, Bool, true, false, not, ◌&&◌, ◌||◌, Option, none,
  some, List, [], ◌∷◌, ltb, leb, ◌==◌, if◌then◌else◌, ℤ, pos, neg, get_or, set, drop,
}
use oxide_os.Sys.Guard.{Check, ok, err, validate_user_range}
use oxide_os.Proc.Task.{
  Task, TaskContext, TaskState, sleeping, and_not, signal_bit, nsig, sigkill, sigstop, frame_size,
}

abbrev pub sig_block : ℕ
sig_block = 0

abbrev pub sig_unblock : ℕ
sig_unblock = 1

abbrev pub sig_setmask : ℕ
sig_setmask = 2

-- SIGKILL and SIGSTOP can never be blocked.
abbrev pub unkillable : ℕ
unkillable = bit_or (signal_bit sigkill) (signal_bit sigstop)

-- `write_unaligned` of a `u64`: the address, the value and the task before.
abbrev pub Store : Type 0
Store = ℕ → ℕ → Task → Task

abbrev pub handled : ℕ → ℕ → Task → Task
handled signum handler t = record t { signal_handlers = set t.signal_handlers signum handler }

-- The handler before is stored where `old_ptr` is not null. An address outside user memory is an
-- error before the handler changes.
unfoldable pub sigaction : Store → Task → ℕ → ℕ → ℕ → ℤ × Task
unfolding validate_user_range
sigaction store t signum handler old_ptr =
    if signum == 0 || leb nsig signum
    then (neg 22, t)
    else if old_ptr == 0
    then (pos 0, handled signum handler t)
    else elim (validate_user_range old_ptr 8) [
      | ok ↦ (pos 0, handled signum handler (store old_ptr (get_or t.signal_handlers signum 0) t))
      | err _ ↦ (neg 14, t)
    ]

-- The mask after a change of the kind `how` by `set`, none for another kind.
unfoldable pub changed_mask : ℕ → ℕ → ℕ → Option ℕ
changed_mask how mask given =
    if how == sig_block
    then some (bit_or mask given)
    else if how == sig_unblock
    then some (and_not mask given)
    else if how == sig_setmask
    then some given
    else none

-- The task after the mask before is stored where `old_ptr` is not null.
abbrev pub reported : Store → ℕ → Task → Task
reported store old_ptr t = if old_ptr == 0 then t else store old_ptr t.signal_mask t

-- The mask before is stored first, also when the kind is wrong. The word is what `set_ptr` holds
-- after that, none when it is null; its low 32 bits count.
unfoldable pub sigprocmask : Store → Task → ℕ → Option ℕ → ℕ → ℤ × Task
unfolding changed_mask
sigprocmask store t how none old_ptr = (pos 0, reported store old_ptr t)
sigprocmask store t how (some word) old_ptr =
    let u = reported store old_ptr t in
    elim (changed_mask how u.signal_mask (and_not (word % 2 ^ 32) unkillable)) [
      | some mask ↦ (pos 0, record u { signal_mask = mask })
      | none ↦ (neg 22, u)
    ]

-- The seconds that were left of the alarm before, at 100 ticks a second.
unfoldable pub alarm : Task → ℕ → ℕ → ℤ × Task
alarm t now seconds = (
  pos (if ltb now t.alarm_deadline then (t.alarm_deadline - now) / 100 else 0),
  record t { alarm_deadline = if seconds == 0 then 0 else (now + seconds * 100) % 2 ^ 64 },
)

-- The signals that are pending and blocked are stored at `set_ptr`.
unfoldable pub sigpending : Store → Task → ℕ → ℤ × Task
sigpending store t set_ptr =
    if set_ptr == 0
    then (neg 14, t)
    else (pos 0, store set_ptr (bit_and t.pending_signals t.signal_mask) t)

unfoldable pub sigsuspend : Task → Option ℕ → ℤ × Task
sigsuspend t word =
    let raw : ℕ = elim word [ some w ↦ w % 2 ^ 32 | none ↦ 0 ] in
    (
      neg 4,
      record t {
        saved_signal_mask = t.signal_mask;
        in_sigsuspend = true;
        signal_mask = and_not raw unkillable;
        state = sleeping ((2 ^ 64 - 1) / 2);
      },
    )

-- `u64` number `i` of a frame.
abbrev pub word_of : List ℕ → ℕ → ℕ
word_of bytes i =
    let b = λ (j : ℕ). get_or bytes (i * 8 + j) 0 in
    b 0
    + b 1 * 2 ^ 8
    + b 2 * 2 ^ 16
    + b 3 * 2 ^ 24
    + b 4 * 2 ^ 32
    + b 5 * 2 ^ 40
    + b 6 * 2 ^ 48
    + b 7 * 2 ^ 56

-- The registers from a `SignalFrame` at `rsp`, which is popped with the return address.
unfoldable pub restored : TaskContext → List ℕ → TaskContext
restored c frame = record c {
  rip = word_of frame 0;
  rax = word_of frame 1;
  rbx = word_of frame 2;
  rcx = word_of frame 3;
  rdx = word_of frame 4;
  rsi = word_of frame 5;
  rdi = word_of frame 6;
  r8 = word_of frame 7;
  r9 = word_of frame 8;
  r10 = word_of frame 9;
  r11 = word_of frame 10;
  r12 = word_of frame 11;
  r13 = word_of frame 12;
  r14 = word_of frame 13;
  r15 = word_of frame 14;
  rbp = word_of frame 15;
  rflags = word_of frame 16;
  rsp = (c.rsp + frame_size + 8) % 2 ^ 64;
}

unfoldable pub sigreturn : Task → List ℕ → ℤ × Task
unfolding restored
sigreturn t frame =
    let back = record t { ctx = restored t.ctx frame } in
    (
      pos 0,
      if t.in_sigsuspend
          then record back { in_sigsuspend = false; signal_mask = t.saved_signal_mask }
          else back,
    )
