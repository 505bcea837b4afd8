-- ===== src/Mem/Flags/Laws.antt =====
-- The two changes of a copy-on-write entry undo each other, and nothing of NO_EXECUTE is stored.
mod Tests
use Prim.Native.Nat.{bit_and, bit_or}
use oxide_os.Prelude.{
  ℕ, ◌+◌, ◌-◌, ◌^◌, ◌<◌, ◌≤◌, min, max, ◌≡◌, ◌≢◌, refl, sym, ap, ◌∙◌, Bool, true, false, not, ◌==◌,
  ==_iff, Bool-cases, inl, inr, ℕ_discrete, dec_lt, ◌⊎◌, arith,
}
use oxide_os.Prelude.Bits.{
  digit, digit-lt, digit-bit_and, digit-bit_or, digit-pow, digit-pow_other, digit-complement,
  same_digits, bit_test, bit_set, digit_above,
}
use oxide_os.Mem.Flags.{
  writable, cow, complement, has, is_writable, is_cow, as_cow, as_writable_no_cow, entry_of, flags,
  addr, user_flags,
}

-- The digits of the changed flags.
digit-as_cow :
    (k f : ℕ)
    → k < 64
    → digit k (as_cow f) ≡ max (min (digit k f) (1 - digit k writable)) (digit k cow)
unfolding as_cow
digit-as_cow k f h =
    digit-bit_or k (bit_and f (complement writable)) cow
    ∙ ap (λ x. max x (digit k cow))
        (digit-bit_and k f (complement writable)
          ∙ ap (min (digit k f)) (digit-complement k 64 writable h (omega arith)))

pub digit-as_writable_no_cow :
    (k f : ℕ)
    → k < 64
    → digit k (as_writable_no_cow f) ≡ min (max (digit k f) (digit k writable)) (1 - digit k cow)
unfolding as_writable_no_cow
digit-as_writable_no_cow k f h =
    digit-bit_and k (bit_or f writable) (complement cow)
    ∙ ap (λ x. min x (digit k (complement cow))) (digit-bit_or k f writable)
    ∙ ap (min (max (digit k f) (digit k writable))) (digit-complement k 64 cow h (omega arith))

-- Which digits the two marks have.
marks :
    (k : ℕ)
    → ((k ≡ 1) × (digit k writable ≡ 1) × (digit k cow ≡ 0))
      ⊎ ((k ≡ 9) × (digit k writable ≡ 0) × (digit k cow ≡ 1))
      ⊎ ((digit k writable ≡ 0) × (digit k cow ≡ 0))
marks k = elim (ℕ_discrete 1 k) [
  | yes p ↦ inl (
    sym p,
    ap (λ i. digit i writable) (sym p) ∙ digit-pow 1,
    ap (λ i. digit i cow) (sym p) ∙ digit-pow_other 1 9 (λ e. absurd (omega (arith, e))),
  )
  | no p ↦ elim (ℕ_discrete 9 k) [
    | yes q ↦ inr (
        inl (
          sym q,
          ap (λ i. digit i writable) (sym q) ∙ digit-pow_other 9 1 (λ e. absurd (omega (arith, e))),
          ap (λ i. digit i cow) (sym q) ∙ digit-pow 9,
        ))
    | no q ↦ inr (inr (digit-pow_other k 1 p, digit-pow_other k 9 q))
  ]
]

pub is_writable-digit : (f : ℕ) → is_writable f ≡ true → digit 1 f ≡ 1
unfolding is_writable
is_writable-digit f e = bit_set f 1 (λ z. clash (ap (λ x. not (x == 0)) z) e)
  where
    clash : not (bit_and f writable == 0) ≡ false → not (bit_and f writable == 0) ≡ true → ⊥
    clash p q = cc (p, q)

pub is_cow-digit : (f : ℕ) → is_cow f ≡ false → digit 9 f ≡ 0
unfolding is_cow
is_cow-digit f e = elim (Bool-cases (bit_and f cow == 0)) [
  | inl z ↦ (bit_test f 9).0 ((==_iff (bit_and f cow) 0).0 z)
  | inr z ↦ absurd (clash z e)
]
  where
    clash : (bit_and f cow == 0) ≡ false → not (bit_and f cow == 0) ≡ false → ⊥
    clash p q = cc (simp p at q)

-- Neither change makes a digit behind the 64th.
high : (k f : ℕ) → f < 2 ^ 64 → 64 ≤ k → digit k (as_writable_no_cow (as_cow f)) ≡ digit k f
unfolding as_writable_no_cow
high k f word h =
    digit-bit_and k (bit_or (as_cow f) writable) (complement cow)
    ∙ omega (arith, digit_above k 64 (complement cow) (omega arith) h, digit_above k 64 f word h)

-- Resolving a fault undoes the marking of a fork: the flags of a writable page that was not shared
-- are what they were.
pub as_writable_no_cow-as_cow :
    (f : ℕ)
    → f < 2 ^ 64
    → is_writable f ≡ true
    → is_cow f ≡ false
    → as_writable_no_cow (as_cow f) ≡ f
as_writable_no_cow-as_cow f word w c = same_digits (as_writable_no_cow (as_cow f)) f each
  where
    low : (k : ℕ) → k < 64 → digit k (as_writable_no_cow (as_cow f)) ≡ digit k f
    low k h = elim (marks k) [
      | inl (p, dw, dc) ↦ omega (
        arith,
        digit-as_writable_no_cow k (as_cow f) h,
        digit-as_cow k f h,
        dw,
        dc,
        ap (λ i. digit i f) p,
        is_writable-digit f w,
      )
      | inr (inl (p, dw, dc)) ↦ omega (
        arith,
        digit-as_writable_no_cow k (as_cow f) h,
        digit-as_cow k f h,
        dw,
        dc,
        ap (λ i. digit i f) p,
        is_cow-digit f c,
      )
      | inr (inr (dw, dc)) ↦
          omega (
            arith,
            digit-as_writable_no_cow k (as_cow f) h,
            digit-as_cow k f h,
            dw,
            dc,
            digit-lt k f,
          )
    ]

    each : (k : ℕ) → digit k (as_writable_no_cow (as_cow f)) ≡ digit k f
    each k = elim (dec_lt k 64) [ yes h ↦ low k h | no h ↦ high k f word (omega (arith, h)) ]

pub has-set : (w k : ℕ) → digit k w ≡ 1 → has w (2 ^ k) ≡ true
has-set w k e = elim (Bool-cases (bit_and w (2 ^ k) == 0)) [
  | inr z ↦ simp z refl
  | inl z ↦ absurd (omega (arith, e, (bit_test w k).0 ((==_iff (bit_and w (2 ^ k)) 0).0 z)))
]

pub has-clear : (w k : ℕ) → digit k w ≡ 0 → has w (2 ^ k) ≡ false
has-clear w k e = simp ((==_iff (bit_and w (2 ^ k)) 0).1 ((bit_test w k).1 e)) refl

low_mask : digit 1 0xFFF ≡ 1
unfolding digit
low_mask = refl

-- The entry of a page after the fault: writable and not shared, where the address has no bit in
-- the place of the mark.
pub resolved-Private :
    (to f : ℕ)
    → digit 9 to ≡ 0
    → let e = bit_or to (flags (as_writable_no_cow f)) in
      (is_writable e ≡ true) × (is_cow e ≡ false)
unfolding is_writable is_cow flags
resolved-Private to f h = (
  has-set (bit_or to (bit_and (as_writable_no_cow f) 0xFFF)) 1 (
      digit-bit_or 1 to (bit_and (as_writable_no_cow f) 0xFFF)
      ∙ omega (arith, digit-lt 1 to, digit-bit_and 1 (as_writable_no_cow f) 0xFFF, one, low_mask)),
  has-clear (bit_or to (bit_and (as_writable_no_cow f) 0xFFF)) 9 (
      digit-bit_or 9 to (bit_and (as_writable_no_cow f) 0xFFF)
      ∙ omega (arith, h, digit-bit_and 9 (as_writable_no_cow f) 0xFFF, none)),
)
  where
    one : digit 1 (as_writable_no_cow f) ≡ 1
    one =
        digit-as_writable_no_cow 1 f (omega arith)
        ∙ omega
            (arith, digit-pow 1, digit-pow_other 1 9 (λ e. absurd (omega (arith, e))), digit-lt 1 f)

    none : digit 9 (as_writable_no_cow f) ≡ 0
    none = digit-as_writable_no_cow 9 f (omega arith) ∙ omega (arith, digit-pow 9)
