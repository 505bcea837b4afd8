-- ===== src/Proc/Deliver/Order.antt =====
-- The loop over pending signals goes through them in the order of their numbers.
use oxide_os.Prelude.{
  ℕ, zero, suc, ◌+◌, ◌-◌, ◌/◌, ◌%◌, ◌^◌, ◌<◌, ◌≤◌, min, ◌≡◌, ◌≢◌, refl, sym, ap, ◌∙◌, Bool, true,
  false, ◌||◌, ◌==◌, ==_iff, if◌then◌else◌, Bool-cases, inl, inr, ℕ_discrete, dec_lt, arith,
}
use oxide_os.Prelude.Bits.{
  digit, digit-lt, digit-bit_and, digit-pow, digit-pow_other, digit-complement, digit_above,
  digit_of_zero, same_digits, below_pow, pow_lt,
}
use oxide_os.Proc.Task.{Task, and_not, sig_dfl, sig_ign, sigchld, sigcont}
use oxide_os.Proc.Scheduler.{killed_by}
use oxide_os.Proc.Machine.{Machine}
use oxide_os.Proc.Deliver.{trailing_zeros, handler_of, redirected, push_frame, deliver_loop}

-- The position of the lowest digit that is set.
record Lowest (b n : ℕ) : Type 0 where
  set_here : digit b n ≡ 1
  none_below : (k : ℕ) → k < b → digit k n ≡ 0

trailing_zeros-Lowest : (w n : ℕ) → n < 2 ^ w → n ≢ 0 → Lowest (trailing_zeros w n) n
unfolding trailing_zeros digit
trailing_zeros-Lowest zero n l ne = absurd (ne (below_one l))
  where
    below_one : n < 1 → n ≡ 0
    below_one p = omega (arith, p)
trailing_zeros-Lowest (suc w) n l ne = elim (Bool-cases (n % 2 == 1)) [
  | inl e ↦
      simp e (record {
        set_here = (==_iff (n % 2) 1).0 e;
        none_below = λ k h. absurd (omega (arith, h));
      })
  | inr e ↦
      let r = trailing_zeros-Lowest w (n / 2) (half l) (λ z. ne (rest z (ground (arith, e)))) in
      simp e (record { set_here = r.set_here; none_below = below r (ground (arith, e)) })
]
  where
    half : n < 2 ^ suc w → n / 2 < 2 ^ w
    half p = omega (arith, p)

    rest : n / 2 ≡ 0 → n % 2 ≡ 0 → n ≡ 0
    rest p q = omega (arith, p, q)

    below :
        Lowest (trailing_zeros w (n / 2)) (n / 2)
        → n % 2 ≡ 0
        → (k : ℕ) → k < suc (trailing_zeros w (n / 2))
        → digit k n ≡ 0
    below r q zero h = q
    below r q (suc k) h = r.none_below k (omega (arith, h))

-- No digit below `j`.
From : ℕ → ℕ → Type 0
From j n = (k : ℕ) → k < j → digit k n ≡ 0

same_position : (j b n : ℕ) → From j n → digit j n ≡ 1 → Lowest b n → b ≡ j
unfolding From
same_position j b n above here low = elim (dec_lt b j) [
  | yes h ↦ absurd (omega (arith, low.set_here, above b h))
  | no h ↦ elim (dec_lt j b) [
    | yes g ↦ absurd (omega (arith, here, low.none_below j g))
    | no g ↦ omega (arith, h, g)
  ]
]

nonzero : (j n : ℕ) → digit j n ≡ 1 → n ≢ 0
nonzero j n here e = omega (arith, here, ap (digit j) e ∙ digit_of_zero j)

-- A digit cleared.
digit-and_not :
    (k j n : ℕ)
    → k < 32
    → j < 32
    → digit k (and_not n (2 ^ j)) ≡ min (digit k n) (1 - digit k (2 ^ j))
digit-and_not k j n h g =
    digit-bit_and k n (2 ^ 32 - 1 - 2 ^ j)
    ∙ ap (min (digit k n)) (digit-complement k 32 (2 ^ j) h (pow_lt j 32 g))

cleared_other : (k j n : ℕ) → k < 32 → j < 32 → j ≢ k → digit k (and_not n (2 ^ j)) ≡ digit k n
cleared_other k j n h g ne =
    digit-and_not k j n h g ∙ omega (arith, digit-pow_other k j ne, digit-lt k n)

cleared-From : (j n : ℕ) → j < 32 → From j n → From (suc j) (and_not n (2 ^ j))
unfolding From
cleared-From j n g above k h = elim (ℕ_discrete j k) [
  | yes p ↦
      ap (λ i. digit i (and_not n (2 ^ j))) (sym p)
      ∙ digit-and_not j j n g g
      ∙ omega (arith, digit-pow j)
  | no p ↦ cleared_other k j n (omega (arith, h, g)) g p ∙ above k (omega (arith, h, p))
]

cleared-lt : (j n : ℕ) → and_not n (2 ^ j) < 2 ^ 32
cleared-lt j n = below_pow 32 (and_not n (2 ^ j)) (λ k h.
    digit-bit_and k n (2 ^ 32 - 1 - 2 ^ j)
    ∙ omega (arith, digit_above k 32 (2 ^ 32 - 1 - 2 ^ j) (omega arith) h))

module _ (machine : Machine) where
  open machine use {Memory}

  -- The signals from `bit + 1` on, `n` of them, each one looked at if it is in `bits`: an ignored one
  -- is passed over, one with a handler or one that ends the task is the last.
  pub in_order : ℕ → ℕ → Task → Memory → ℕ → Bool × Task × Memory
  in_order zero bit t m bits = (false, t, m)
  in_order (suc n) bit t m bits =
      let next = in_order n (suc bit) t m bits in
      if digit bit bits == 0
      then next
      else if handler_of t (bit + 1) == sig_ign
      then next
      else if handler_of t (bit + 1) == sig_dfl
      then (if bit + 1 == sigchld || bit + 1 == sigcont
          then next
          else (true, killed_by (bit + 1) t, m))
      else (false, redirected t (bit + 1) (handler_of t (bit + 1)), push_frame machine t m)

  -- Two masks with the same digits from `j` on below the 32nd.
  Agree : ℕ → ℕ → ℕ → Type 0
  Agree j x y = (k : ℕ) → j ≤ k → k < 32 → digit k x ≡ digit k y

  none_left :
      (rounds : ℕ) (t : Task) (m : Memory) (n : ℕ)
      → n ≡ 0
      → deliver_loop machine rounds t m n ≡ (false, t, m)
  unfolding deliver_loop
  none_left zero t m n e = refl
  none_left (suc rounds) t m n e = simp ((==_iff n 0).1 e) refl

  -- The loop at a mask whose digits start at `j`, and the scan from `j` on.
  loop_at :
      (n j rounds : ℕ) (t : Task) (m : Memory) (bits all : ℕ)
      → j + n ≡ 32
      → n ≤ rounds
      → bits < 2 ^ 32
      → From j bits
      → Agree j bits all
      → deliver_loop machine rounds t m bits ≡ in_order n j t m all
  unfolding deliver_loop in_order From Agree
  loop_at zero j rounds t m bits all sum enough word above same =
      none_left rounds t m bits (same_digits bits 0 (λ k. each k ∙ sym (digit_of_zero k)))
    where
      each : (k : ℕ) → digit k bits ≡ 0
      each k = elim (dec_lt k 32) [
        | yes h ↦ above k (omega (arith, h, sum))
        | no h ↦ digit_above k 32 bits word (omega (arith, h))
      ]
  loop_at (suc n) j zero t m bits all sum enough word above same = absurd (omega (arith, enough))
  loop_at (suc n) j (suc rounds) t m bits all sum enough word above same =
      elim (Bool-cases (digit j bits == 0)) [
        | inl e ↦ simp (absent ((==_iff (digit j bits) 0).0 e)) (
            loop_at n (suc j) (suc rounds) t m bits all (omega (arith, sum)) (omega (arith, enough))
              word (further ((==_iff (digit j bits) 0).0 e)) (λ k h g. same k (omega (arith, h)) g))
        | inr e ↦
            simp
              (
                at_j (here e),
                some_left (here e),
                present (here e),
                loop_at n (suc j) rounds t m (and_not bits (2 ^ j)) all (omega (arith, sum))
                    (omega (arith, enough)) (cleared-lt j bits)
                    (cleared-From j bits (omega (arith, sum)) above)
                    (λ k h g.
                      cleared_other k j bits g (omega (arith, sum))
                        (λ p. absurd (omega (arith, p, h)))
                      ∙ same k (omega (arith, h)) g),
              )
              refl
      ]
    where
      agree : digit j bits ≡ digit j all
      agree = same j (omega arith) (omega (arith, sum))

      absent : digit j bits ≡ 0 → (digit j all == 0) ≡ true
      absent z = (==_iff (digit j all) 0).1 (sym agree ∙ z)

      further : digit j bits ≡ 0 → (k : ℕ) → k < suc j → digit k bits ≡ 0
      further z k h = elim (ℕ_discrete k j) [
        | yes p ↦ ap (λ i. digit i bits) p ∙ z
        | no p ↦ above k (omega (arith, h, p))
      ]

      here : (digit j bits == 0) ≡ false → digit j bits ≡ 1
      here e = one (digit j bits) (digit-lt j bits) e
        where
          one : (x : ℕ) → x < 2 → (x == 0) ≡ false → x ≡ 1
          one x l f = ground (arith, l, f)

      present : digit j bits ≡ 1 → (digit j all == 0) ≡ false
      present z = nonzero_test (digit j all) (sym agree ∙ z)
        where
          nonzero_test : (x : ℕ) → x ≡ 1 → (x == 0) ≡ false
          nonzero_test x p = ground (arith, p)

      some_left : digit j bits ≡ 1 → (bits == 0) ≡ false
      some_left z = nonzero_test bits (nonzero j bits z)
        where
          nonzero_test : (x : ℕ) → x ≢ 0 → (x == 0) ≡ false
          nonzero_test x p = ground (arith, p)

      at_j : digit j bits ≡ 1 → trailing_zeros 32 bits ≡ j
      at_j z =
          same_position j (trailing_zeros 32 bits) bits above z
            (trailing_zeros-Lowest 32 bits word (nonzero j bits z))

  -- The loop over the signals to deliver, with 32 rounds or more, goes through the signals from 1 to
  -- 32 in the order of their numbers, when they are a mask of 32 bits: 32 rounds are enough.
  pub deliver_loop-in_order :
      (rounds : ℕ) (t : Task) (m : Memory) (bits : ℕ)
      → 32 ≤ rounds
      → bits < 2 ^ 32
      → deliver_loop machine rounds t m bits ≡ in_order 32 0 t m bits
  unfolding From Agree
  deliver_loop-in_order rounds t m bits enough word =
      loop_at 32 0 rounds t m bits bits refl enough word (λ k h. absurd (omega (arith, h)))
        (λ k h g. refl)
