-- ===== src/Proc/Deliver/Mask.antt =====
-- Which signals are pending after a delivery.
use Prim.Native.Nat.{bit_and}
use oxide_os.Prelude.{
  ℕ, zero, suc, ◌+◌, ◌-◌, ◌^◌, ◌<◌, ◌≤◌, min, max, ◌≡◌, ◌≢◌, ◌⊎◌, refl, sym, ap, ap₂, ◌∙◌, Bool,
  true, false, ◌||◌, ◌==◌, ==_iff, if◌then◌else◌, Bool-cases, inl, inr, arith,
}
use oxide_os.Prelude.Bits.{
  digit, digit-lt, digit-bit_and, digit-bit_or, digit-complement, digit_of_zero, digit-pow,
  digit-pow_other, digit_above, below_pow,
}
use oxide_os.Proc.Task.{Task, and_not, sig_dfl, sig_ign, sigchld, sigcont}
use oxide_os.Proc.Scheduler.{killed_by}
use oxide_os.Proc.Machine.{Machine}
use oxide_os.Proc.Deliver.{
  trailing_zeros, always_deliverable, deliverable, handler_of, redirected, deliver_loop,
  deliver_pending_signals,
}

digit-deliverable :
    (k : ℕ) (t : Task)
    → k < 32
    → t.signal_mask < 2 ^ 32
    → digit k (deliverable t)
      ≡ max
          (min (digit k t.pending_signals) (1 - digit k t.signal_mask))
          (min (digit k t.pending_signals) (digit k always_deliverable))
digit-deliverable k t h word =
    digit-bit_or k (and_not t.pending_signals t.signal_mask)
      (bit_and t.pending_signals always_deliverable)
    ∙ ap₂ max
        (digit-bit_and k t.pending_signals (2 ^ 32 - 1 - t.signal_mask)
          ∙ ap (min (digit k t.pending_signals)) (digit-complement k 32 t.signal_mask h word))
        (digit-bit_and k t.pending_signals always_deliverable)

deliverable-lt : (t : Task) → deliverable t < 2 ^ 32
deliverable-lt t = below_pow 32 (deliverable t) (λ k h.
    digit-bit_or k (and_not t.pending_signals t.signal_mask)
      (bit_and t.pending_signals always_deliverable)
    ∙ omega (
      arith,
      digit-bit_and k t.pending_signals (2 ^ 32 - 1 - t.signal_mask),
      digit-bit_and k t.pending_signals always_deliverable,
      digit_above k 32 (2 ^ 32 - 1 - t.signal_mask) (omega arith) h,
      digit_above k 32 always_deliverable (omega arith) h,
    ))

-- The two signals that no mask blocks.
digit-always :
    (k : ℕ)
    → ((k ≡ 8) ⊎ (k ≡ 18) → digit k always_deliverable ≡ 1)
      × (k ≢ 8 → k ≢ 18 → digit k always_deliverable ≡ 0)
digit-always k = (
  by_number,
  λ p q.
      digit-bit_or k (2 ^ 8) (2 ^ 18)
      ∙ omega (arith, digit-pow_other k 8 (λ e. p (sym e)), digit-pow_other k 18 (λ e. q (sym e))),
)
  where
    kill_bit : digit 8 always_deliverable ≡ 1
    kill_bit = digit-bit_or 8 (2 ^ 8) (2 ^ 18) ∙ omega (arith, digit-pow 8, digit-lt 8 (2 ^ 18))

    stop_bit : digit 18 always_deliverable ≡ 1
    stop_bit = digit-bit_or 18 (2 ^ 8) (2 ^ 18) ∙ omega (arith, digit-pow 18, digit-lt 18 (2 ^ 8))

    by_number : (k ≡ 8) ⊎ (k ≡ 18) → digit k always_deliverable ≡ 1
    by_number (inl e) = ap (λ i. digit i always_deliverable) e ∙ kill_bit
    by_number (inr e) = ap (λ i. digit i always_deliverable) e ∙ stop_bit

if-then : {A : Type 0} (b : Bool) (x y : A) → b ≡ true → (if b then x else y) ≡ x
if-then true x y e = refl
if-then false x y e = cc

if-else : {A : Type 0} (b : Bool) (x y : A) → b ≡ false → (if b then x else y) ≡ y
if-else true x y e = cc
if-else false x y e = refl

module _ (machine : Machine) where
  open machine use {Memory}

  -- The loop does not touch the pending signals.
  loop-pending :
      (rounds : ℕ) (t : Task) (m : Memory) (bits : ℕ)
      → (deliver_loop machine rounds t m bits).1.pending_signals ≡ t.pending_signals
  unfolding deliver_loop killed_by redirected
  loop-pending zero t m bits = refl
  loop-pending (suc rounds) t m bits =
      by_case (loop-pending rounds t m (and_not bits (2 ^ trailing_zeros 32 bits)))
    where
      choose :
          (b : Bool) (x y : Bool × Task × Memory) (p : ℕ)
          → x.1.pending_signals ≡ p
          → y.1.pending_signals ≡ p
          → (if b then x else y).1.pending_signals ≡ p
      choose true x y p e f = e
      choose false x y p e f = f

      by_case :
          (deliver_loop machine rounds t m
              (and_not bits (2 ^ trailing_zeros 32 bits))).1.pending_signals
            ≡ t.pending_signals
          → (deliver_loop machine (suc rounds) t m bits).1.pending_signals ≡ t.pending_signals
      by_case next = choose (bits == 0) _ _ t.pending_signals refl (
          choose (handler_of t (trailing_zeros 32 bits + 1) == sig_ign) _ _ t.pending_signals next (
            choose (handler_of t (trailing_zeros 32 bits + 1) == sig_dfl) _ _ t.pending_signals
              (choose
                ((trailing_zeros 32 bits + 1 == sigchld) || (trailing_zeros 32 bits + 1 == sigcont))
                _ _ t.pending_signals next refl)
              refl))

  -- The task without the signals to deliver, and the loop on it.
  abbrev cleared : Task → Task
  cleared t = record t { pending_signals = and_not t.pending_signals (deliverable t) }

  abbrev looped : Task → Memory → Bool × Task × Memory
  looped t m = deliver_loop machine 32 (cleared t) m (deliverable t)

  -- What a delivery leaves pending.
  left_pending :
      (k : ℕ) (t : Task) (m : Memory)
      → k < 32
      → digit k (deliver_pending_signals machine t m).1.pending_signals
        ≡ min (digit k t.pending_signals) (1 - digit k (deliverable t))
  unfolding deliver_pending_signals
  left_pending k t m h = elim (Bool-cases (deliverable t == 0)) [
    | inl e ↦
        ap (λ p. digit k p.1.pending_signals)
          (if-then (deliverable t == 0) (false, t, m) (looped t m) e)
        ∙ untouched ((==_iff (deliverable t) 0).0 e)
    | inr e ↦
        ap (λ p. digit k p.1.pending_signals)
          (if-else (deliverable t == 0) (false, t, m) (looped t m) e)
        ∙ ap (digit k) (loop-pending 32 (cleared t) m (deliverable t))
        ∙ digit-bit_and k t.pending_signals (2 ^ 32 - 1 - deliverable t)
        ∙ ap (min (digit k t.pending_signals))
            (digit-complement k 32 (deliverable t) h (deliverable-lt t))
  ]
    where
      untouched :
          deliverable t ≡ 0
          → digit k t.pending_signals
            ≡ min (digit k t.pending_signals) (1 - digit k (deliverable t))
      untouched z = omega (arith, digit-lt k t.pending_signals, ap (digit k) z, digit_of_zero k)

  -- A delivery makes no signal pending that was not, and leaves every signal pending that was and
  -- that the task's mask of 32 bits blocks, SIGKILL and SIGSTOP apart.
  pub deliver_keeps :
      (k : ℕ) (t : Task) (m : Memory)
      → k < 32
      → t.signal_mask < 2 ^ 32
      → let after = (deliver_pending_signals machine t m).1.pending_signals in
        (digit k after ≤ digit k t.pending_signals)
        × (k ≢ 8 → k ≢ 18 → digit k t.signal_mask ≡ 1 → digit k after ≡ digit k t.pending_signals)
  deliver_keeps k t m h word = (
    omega (arith, left_pending k t m h),
    λ p q blocked.
        left_pending k t m h
        ∙ omega (
          arith,
          digit-deliverable k t h word,
          (digit-always k).1 p q,
          blocked,
          digit-lt k t.pending_signals,
        ),
  )
