-- ===== src/Sys/Signals/Masks.antt =====
-- kernel/src/kernel/sys/syscall.rs: the masks that sequences of the calls on signals make, where
-- the pointers are null or in user memory.
use Prim.Native.Nat.{bit_or}
use oxide_os.Prelude.{
  ℕ, ◌-◌, ◌%◌, ◌^◌, ◌≡◌, refl, sym, ◌∙◌, ◌==◌, ◌||◌, ◌⊎◌, ℤ, pos, neg, leb, All, Option, none, some,
  List, [], ◌∷◌, inl, inr, Bool-cases, Option-cases, arith, subst,
}
use oxide_os.Prelude.Bits.{digit, digit-bit_and, digit-bit_or, digit_of_zero}
use oxide_os.Proc.Task.{Task, nsig, and_not, empty_task}
use oxide_os.Sys.Signals.{
  unkillable, sigaction, changed_mask, sig_block, sig_unblock, sig_setmask, sigprocmask, alarm,
  sigsuspend, sigreturn, sigpending, Store, reported, handled,
}
use oxide_os.Sys.Guard.{Check, ok, err, validate_user_range, InUser}
use oxide_os.Sys.Guard.Range.{validate_user_range_lem}

-- The bits of SIGKILL and SIGSTOP are clear.
abbrev pub Clear : ℕ → Type 0
Clear mask = (digit 8 mask ≡ 0) × (digit 18 mask ≡ 0)

-- The mask in use, and the one that a handler's return puts back.
pub record NeverBlocked (t : Task) : Type 0 where
  pub now : Clear t.signal_mask
  pub saved : Clear t.saved_signal_mask

kept_bits : (digit 8 (2 ^ 32 - 1 - unkillable) ≡ 0) × (digit 18 (2 ^ 32 - 1 - unkillable) ≡ 0)
unfolding digit
kept_bits = (refl, refl)

unkillable-Clear : (raw : ℕ) → Clear (and_not raw unkillable)
unkillable-Clear raw = (
  digit-bit_and 8 raw (2 ^ 32 - 1 - unkillable) ∙ omega (arith, kept_bits.0),
  digit-bit_and 18 raw (2 ^ 32 - 1 - unkillable) ∙ omega (arith, kept_bits.1),
)

bit_or-Clear : (a b : ℕ) → Clear a → Clear b → Clear (bit_or a b)
bit_or-Clear a b p q =
    (digit-bit_or 8 a b ∙ omega (arith, p.0, q.0), digit-bit_or 18 a b ∙ omega (arith, p.1, q.1))

and_not-Clear : (a b : ℕ) → Clear a → Clear (and_not a b)
and_not-Clear a b p = (
  digit-bit_and 8 a (2 ^ 32 - 1 - b) ∙ omega (arith, p.0),
  digit-bit_and 18 a (2 ^ 32 - 1 - b) ∙ omega (arith, p.1),
)

-- A program's calls on signals, with what they read.
pub data Op : Type 0 where
  masks : ℕ → Option ℕ → ℕ → Op
  suspends : Option ℕ → Op
  returns : List ℕ → Op
  handles : ℕ → ℕ → ℕ → Op
  alarms : ℕ → ℕ → Op
  pendings : ℕ → Op

-- A null pointer, or eight bytes of user memory.
abbrev pub NullOrUser : ℕ → Type 0
NullOrUser ptr = (ptr ≡ 0) ⊎ InUser ptr 8

-- The pointers that sigprocmask and sigpending store through without a check.
unfoldable pub PointsToUser : Op → Type 0
PointsToUser (masks how word old_ptr) = NullOrUser old_ptr
PointsToUser (pendings set_ptr) = NullOrUser set_ptr
PointsToUser _ = Unit

unfoldable pub step : Store → Task → Op → Task
step store t (masks how word old_ptr) = (sigprocmask store t how word old_ptr).1
step store t (suspends word) = (sigsuspend t word).1
step store t (returns frame) = (sigreturn t frame).1
step store t (handles signum handler old_ptr) = (sigaction store t signum handler old_ptr).1
step store t (alarms now seconds) = (alarm t now seconds).1
step store t (pendings set_ptr) = (sigpending store t set_ptr).1

unfoldable pub run_ops : Store → Task → List Op → Task
run_ops store t [] = t
run_ops store t (op ∷ ops) = run_ops store (step store t op) ops

-- Every mask that a change gives.
abbrev AllClear : Option ℕ → Type 0
AllClear none = Unit
AllClear (some mask) = Clear mask

changed_mask-Clear :
    (how mask given : ℕ) → Clear mask → Clear given → AllClear (changed_mask how mask given)
unfolding changed_mask
changed_mask-Clear how mask given p q = elim (Bool-cases (how == sig_block)) [
  | inl e ↦ simp (changed_mask, e) (bit_or-Clear mask given p q)
  | inr e ↦ elim (Bool-cases (how == sig_unblock)) [
    | inl f ↦ simp (changed_mask, e, f) (and_not-Clear mask given p)
    | inr f ↦ elim (Bool-cases (how == sig_setmask)) [
      | inl g ↦ simp (changed_mask, e, f, g) q
      | inr g ↦ simp (changed_mask, e, f, g) tt
    ]
  ]
]

returns-NeverBlocked :
    (t : Task) (frame : List ℕ) → NeverBlocked t → NeverBlocked (sigreturn t frame).1
unfolding sigreturn
returns-NeverBlocked t frame v = elim (Bool-cases t.in_sigsuspend) [
  | inl e ↦ simp (sigreturn, e) (record { now = v.saved; saved = v.saved })
  | inr e ↦ simp (sigreturn, e) (record { now = v.now; saved = v.saved })
]

Check-cases : (c : Check) → (c ≡ ok) ⊎ ((code : ℤ) × (c ≡ err code))
Check-cases ok = inl refl
Check-cases (err code) = inr (code, refl)

-- Stores to user memory do not touch the task.
module _ (store : Store) (apart : (a v : ℕ) (t : Task) → InUser a 8 → store a v t ≡ t) where
  reported_same : (t : Task) (old_ptr : ℕ) → NullOrUser old_ptr → reported store old_ptr t ≡ t
  reported_same t old_ptr p = elim (Bool-cases (old_ptr == 0)) [
    | inl e ↦ simp e refl
    | inr e ↦
        simp e (elim p [
          | inl z ↦ absurd (ground (arith, e, z))
          | inr u ↦ apart old_ptr t.signal_mask t u
        ])
  ]

  masks-NeverBlocked :
      (t : Task) (how : ℕ) (word : Option ℕ) (old_ptr : ℕ)
      → NullOrUser old_ptr
      → NeverBlocked t
      → NeverBlocked (sigprocmask store t how word old_ptr).1
  unfolding sigprocmask
  masks-NeverBlocked t how none old_ptr p v = subst NeverBlocked (sym (reported_same t old_ptr p)) v
  masks-NeverBlocked t how (some word) old_ptr p v =
      by_mask (reported store old_ptr t) (subst NeverBlocked (sym (reported_same t old_ptr p)) v)
    where
      given : ℕ
      given = and_not (word % 2 ^ 32) unkillable

      by_mask :
          (u : Task)
          → NeverBlocked u
          → NeverBlocked
              (elim (changed_mask how u.signal_mask given) as (λ _. ℤ × Task) [
                | some mask ↦ (pos 0, record u { signal_mask = mask })
                | none ↦ (neg 22, u)
              ]).1
      by_mask u v =
          let clear =
            changed_mask-Clear how u.signal_mask given v.now (unkillable-Clear (word % 2 ^ 32)) in
          elim (Option-cases (changed_mask how u.signal_mask given)) [
            | inl e ↦ simp e v
            | inr (mask, e) ↦ simp e (record { now = subst AllClear e clear; saved = v.saved })
          ]

  handles-NeverBlocked :
      (t : Task) (signum handler old_ptr : ℕ)
      → NeverBlocked t
      → NeverBlocked (sigaction store t signum handler old_ptr).1
  unfolding sigaction
  handles-NeverBlocked t signum handler old_ptr v =
      elim (Bool-cases (signum == 0 || leb nsig signum)) [
        | inl e ↦ simp (sigaction, e) v
        | inr e ↦ elim (Bool-cases (old_ptr == 0)) [
          | inl f ↦ simp (sigaction, e, f) (changed t v)
          | inr f ↦ elim (Check-cases (validate_user_range old_ptr 8)) [
            | inl g ↦
                simp (sigaction, e, f, g)
                  (changed (store old_ptr _ t) (
                    subst NeverBlocked
                      (sym (apart old_ptr _ t ((validate_user_range_lem old_ptr 8).0 g))) v))
            | inr (_, g) ↦ simp (sigaction, e, f, g) v
          ]
        ]
      ]
    where
      changed : (u : Task) → NeverBlocked u → NeverBlocked (handled signum handler u)
      changed u w = record { now = w.now; saved = w.saved }

  pendings-NeverBlocked :
      (t : Task) (set_ptr : ℕ)
      → NullOrUser set_ptr
      → NeverBlocked t
      → NeverBlocked (sigpending store t set_ptr).1
  unfolding sigpending
  pendings-NeverBlocked t set_ptr p v = elim (Bool-cases (set_ptr == 0)) [
    | inl e ↦ simp (sigpending, e) v
    | inr e ↦
        simp (sigpending, e)
          (elim p [
            | inl z ↦ absurd (ground (arith, e, z))
            | inr u ↦ subst NeverBlocked (sym (apart set_ptr _ t u)) v
          ])
  ]

  step-NeverBlocked :
      (t : Task) (op : Op) → PointsToUser op → NeverBlocked t → NeverBlocked (step store t op)
  unfolding step sigsuspend alarm PointsToUser
  step-NeverBlocked t (masks how word old_ptr) p v = masks-NeverBlocked t how word old_ptr p v
  step-NeverBlocked t (suspends word) p v = record { now = unkillable-Clear _; saved = v.now }
  step-NeverBlocked t (returns frame) p v = returns-NeverBlocked t frame v
  step-NeverBlocked t (handles signum handler old_ptr) p v =
      handles-NeverBlocked t signum handler old_ptr v
  step-NeverBlocked t (alarms now seconds) p v = record { now = v.now; saved = v.saved }
  step-NeverBlocked t (pendings set_ptr) p v = pendings-NeverBlocked t set_ptr p v

  run_ops-NeverBlocked :
      (t : Task) (ops : List Op)
      → All PointsToUser ops
      → NeverBlocked t
      → NeverBlocked (run_ops store t ops)
  unfolding run_ops
  run_ops-NeverBlocked t [] p v = v
  run_ops-NeverBlocked t (op ∷ ops) p v =
      run_ops-NeverBlocked (step store t op) ops p.1 (step-NeverBlocked t op p.0 v)

-- Where stores to user memory do not touch the task, and the pointers that sigprocmask and
-- sigpending store through are null or in user memory: whatever calls on signals a program makes,
-- in whatever order and with whatever other arguments, the mask of a task that starts with an empty
-- one never blocks SIGKILL or SIGSTOP, nor does the mask that a handler's return puts back.
pub reachable-NeverBlocked :
    (store : Store) (ops : List Op)
    → ((a v : ℕ) (t : Task) → InUser a 8 → store a v t ≡ t)
    → All PointsToUser ops
    → NeverBlocked (run_ops store empty_task ops)
unfolding empty_task
reachable-NeverBlocked store ops apart p =
    run_ops-NeverBlocked store apart empty_task ops p (record {
      now = (digit_of_zero 8, digit_of_zero 18);
      saved = (digit_of_zero 8, digit_of_zero 18);
    })
