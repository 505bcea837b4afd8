-- ===== src/Proc/Deliver.antt =====
-- kernel/src/kernel/proc/scheduler.rs, deliver_pending_signals: what happens to a task with pending
-- signals before it runs.
pub mod Order
pub mod Mask
mod Tests
use Prim.Native.Nat.{bit_and, bit_or}
use oxide_os.Prelude.{
  ℕ, zero, suc, ◌+◌, ◌-◌, ◌*◌, ◌/◌, ◌%◌, ◌^◌, Bool, true, false, ◌||◌, ltb, ◌==◌, if◌then◌else◌,
  get_or,
}
use oxide_os.Proc.Task.{
  Task, frame_bytes, frame_size, le_bytes, signal_bit, and_not, nsig, sig_dfl, sig_ign, sigkill,
  sigchld, sigcont, sigstop, user_sigtramp,
}
use oxide_os.Proc.Scheduler.{killed_by}
use oxide_os.Proc.Machine.{Machine}

-- `u32::trailing_zeros` of a number that is not zero.
pub trailing_zeros : ℕ → ℕ → ℕ
trailing_zeros zero n = 0
trailing_zeros (suc k) n = let rest = trailing_zeros k (n / 2) in if n % 2 == 1 then 0 else suc rest

abbrev pub always_deliverable : ℕ
always_deliverable = bit_or (signal_bit sigkill) (signal_bit sigstop)

abbrev pub deliverable : Task → ℕ
deliverable t =
    bit_or (and_not t.pending_signals t.signal_mask) (bit_and t.pending_signals always_deliverable)

abbrev pub handler_of : Task → ℕ → ℕ
handler_of t signum = if ltb signum nsig then get_or t.signal_handlers signum sig_dfl else sig_dfl

-- The address below the stack, and `rsp & !0xF`, on `u64`.
abbrev pub below : ℕ → ℕ → ℕ
below rsp n = (rsp + 2 ^ 64 - n) % 2 ^ 64

abbrev pub aligned : ℕ → ℕ
aligned rsp = rsp / 16 * 16

abbrev pub frame_rsp : Task → ℕ
frame_rsp t = aligned (below (below t.ctx.rsp 8) frame_size)

-- The task sent to its handler.
pub redirected : Task → ℕ → ℕ → Task
redirected t signum handler = record t {
  ctx = record t.ctx { rsp = frame_rsp t; rip = handler; rdi = signum };
}

module _ (machine : Machine) where
  open machine use {Memory, copy_to_region_in}

  -- The trampoline's address and the registers, put on the user's stack.
  pub push_frame : Task → Memory → Memory
  unfolding le_bytes frame_bytes
  push_frame t m =
      let rsp = below t.ctx.rsp 8 in
      let m' = copy_to_region_in m t.cr3 rsp (le_bytes user_sigtramp) in
      copy_to_region_in m' t.cr3 (frame_rsp t) (frame_bytes t.ctx)

  -- The loop over the bits to deliver. Each round clears a bit, so 32 rounds are enough.
  pub deliver_loop : ℕ → Task → Memory → ℕ → Bool × Task × Memory
  unfolding trailing_zeros killed_by redirected push_frame
  deliver_loop zero t m bits = (false, t, m)
  deliver_loop (suc rounds) t m bits =
      let bit = trailing_zeros 32 bits in
      let signum = bit + 1 in
      let handler = handler_of t signum in
      let next = deliver_loop rounds t m (and_not bits (2 ^ bit)) in
      if bits == 0
      then (false, t, m)
      else if handler == sig_ign
      then next
      else if handler == sig_dfl
      then (if signum == sigchld || signum == sigcont then next else (true, killed_by signum t, m))
      else (false, redirected t signum handler, push_frame t m)

  unfoldable pub deliver_pending_signals : Task → Memory → Bool × Task × Memory
  unfolding deliver_loop
  deliver_pending_signals t m =
      let bits = deliverable t in
      if bits == 0
      then (false, t, m)
      else deliver_loop 32 (record t { pending_signals = and_not t.pending_signals bits }) m bits
