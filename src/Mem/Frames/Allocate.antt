-- ===== src/Mem/Frames/Allocate.antt =====
-- What `allocate_frame` does.
use oxide_os.Prelude.{
  ℕ, zero, suc, ◌+◌, ◌*◌, ◌%◌, ◌<◌, ◌≡◌, ◌≢◌, ◌⊎◌, inl, inr, refl, ap, ◌∙◌, true, false, ltb, ◌==◌,
  Option, none, some, Bool-cases, ℕ_discrete, length-set, get_or-set_self, get_or-set_ne, arith,
}
use oxide_os.Mem.Frames.{
  FrameAllocator, frame_count, is_free, find_frame, taken, allocate_frame, count_of,
}
use oxide_os.Mem.Frames.Bitmap.{
  bit, Sized, bit-mark_used, bit-mark_used_other, is_free-bit, mark_used-Sized,
}

-- The frame `i` places behind the next one, around the ring of all frames.
abbrev pub place : FrameAllocator → ℕ → ℕ
place a i = (a.next_frame + i) % frame_count

-- The frame at `place a k` is free, and those of the search before it are in use.
pub record FirstFree (a : FrameAllocator) (off k : ℕ) : Type 0 where
  pub free : is_free a (place a k) ≡ true
  pub before : (i : ℕ) → i < k → (i < off) ⊎ (is_free a (place a i) ≡ false)

find_frame_lem :
    (a : FrameAllocator) (n off : ℕ)
    → ((find_frame a n off ≡ none)
        × ((i : ℕ) → i < off + n → (i < off) ⊎ (is_free a (place a i) ≡ false)))
      ⊎ ((k : ℕ) × (k < off + n) × (find_frame a n off ≡ some (place a k)) × FirstFree a off k)
unfolding find_frame
find_frame_lem a zero off = inl (refl, λ i h. inl (omega (arith, h)))
find_frame_lem a (suc n) off = elim (Bool-cases (is_free a (place a off))) [
  | inl e ↦ inr (off, omega arith, simp e refl, record { free = e; before = λ i h. inl h })
  | inr e ↦ elim (find_frame_lem a n (off + 1)) [
    | inl (f, all) ↦ inl (simp e f, λ i h. later e i (all i (omega (arith, h))))
    | inr (k, l, f, first) ↦ inr (
      k,
      omega (arith, l),
      simp e f,
      record { free = first.free; before = λ i h. later e i (first.before i h) },
    )
  ]
]
  where
    later :
        is_free a (place a off) ≡ false
        → (i : ℕ) → (i < off + 1) ⊎ (is_free a (place a i) ≡ false)
        → (i < off) ⊎ (is_free a (place a i) ≡ false)
    later e i (inr used) = inr used
    later e i (inl l) = elim (ℕ_discrete i off) [
      | yes p ↦ inr (ap (λ j. is_free a (place a j)) p ∙ e)
      | no p ↦ inl (omega (arith, l, p))
    ]

-- The allocator with frame `f` in use and owned once, all others as before.
pub record Took (a : FrameAllocator) (f : ℕ) (b : FrameAllocator) : Type 0 where
  pub used : is_free b f ≡ false
  pub owned : count_of b f ≡ 1
  pub others : (g : ℕ) → f ≢ g → (bit b g ≡ bit a g) × (count_of b g ≡ count_of a g)
  pub sized : Sized b

is_free-lt : (a : FrameAllocator) (f : ℕ) → is_free a f ≡ true → f < 65536
unfolding is_free
is_free-lt a f e = elim (Bool-cases (ltb f 65536)) [
  | inl h ↦ ground (arith, h)
  | inr h ↦ absurd (clash (simp h at e))
]
  where
    clash : false ≡ true → ⊥
    clash p = cc p

taken-Took : (a : FrameAllocator) (f : ℕ) → Sized a → f < 65536 → Took a f (taken a f)
unfolding taken bit
taken-Took a f z h = record {
  used = is_free-bit (taken a f) f h ∙ ap (λ x. x == 0) (bit-mark_used a f z h);
  owned = get_or-set_self a.refcount f 1 0 (omega (arith, z.counts, h));
  others = λ g ne. (bit-mark_used_other a f g z h ne, get_or-set_ne a.refcount f g 1 0 ne);
  sized = record {
    words = (mark_used-Sized a f z).words;
    counts = length-set a.refcount f 1 ∙ z.counts;
  };
}

-- How a call ends: all places searched are in use and nothing changes, or the first free one of
-- them is taken.
abbrev pub Allocates : FrameAllocator → Option ℕ × FrameAllocator → Type 0
Allocates a out =
    ((out ≡ (none, a)) × ((i : ℕ) → i < a.total_frames → is_free a (place a i) ≡ false))
    ⊎ ((k : ℕ) × (k < a.total_frames)
        × FirstFree a 0 k
        × (out.0 ≡ some (place a k * 4096))
        × Took a (place a k) out.1)

-- `allocate_frame` looks at as many places as frames are tracked, from the next one around the
-- ring. If none of them is free it fails and changes nothing. Else it returns the address of the
-- first that is free, which is then in use and owned once, and no other frame changes.
pub allocate_frame_lem : (a : FrameAllocator) → Sized a → Allocates a (allocate_frame a)
unfolding allocate_frame
allocate_frame_lem a z = elim (find_frame_lem a a.total_frames 0) [
  | inl (e, all) ↦ simp (allocate_frame, e) (inl (refl, λ i h. in_use i (all i (omega (arith, h)))))
  | inr (k, l, e, first) ↦
      simp (allocate_frame, e)
        (inr (
          k,
          omega (arith, l),
          first,
          refl,
          taken-Took a (place a k) z (is_free-lt a (place a k) first.free),
        ))
]
  where
    in_use : (i : ℕ) → (i < 0) ⊎ (is_free a (place a i) ≡ false) → is_free a (place a i) ≡ false
    in_use i (inl l) = absurd (omega (arith, l))
    in_use i (inr e) = e
