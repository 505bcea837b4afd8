-- ===== src/Mem/Frames/Share.antt =====
-- Frames with several owners: what a release does after a second owner was added, and after an
-- allocation.
use oxide_os.Prelude.{
  ℕ, ◌+◌, ◌-◌, ◌*◌, ◌/◌, ◌^◌, ◌%◌, ◌<◌, ◌≡◌, ◌≢◌, min, refl, sym, ap, subst, get_or, ◌∙◌, true,
  false, ◌==◌, if◌then◌else◌, Bool-cases, inl, inr, some, set, set-set, set-get_or, get_or-set_self,
  get_or-set_ne, length-set, ℕ_discrete, arith,
}
use oxide_os.Mem.Frames.{
  FrameAllocator, is_free, mark_free, allocate_frame, free_frame, inc_refcount, count_of,
}
use oxide_os.Mem.Frames.Bitmap.{
  bit, Sized, bit-mark_free, bit-mark_free_other, is_free-bit, refcount-mark_free, inside-true,
}
use oxide_os.Mem.Frames.Allocate.{Took, Allocates, place, allocate_frame_lem}

-- A second owner that goes leaves everything as it was, when the frame had an owner and fewer than
-- 65535.
pub free_frame-inc_refcount :
    (a : FrameAllocator) (addr : ℕ)
    → Sized a
    → addr / 4096 < 65536
    → 0 < count_of a (addr / 4096)
    → count_of a (addr / 4096) < 65535
    → free_frame (inc_refcount a addr) addr ≡ a
unfolding free_frame inc_refcount
free_frame-inc_refcount a addr z h owned few =
    simp (inside-true (addr / 4096) h, counted, not_last, set-set a.refcount (addr / 4096))
      (ap (λ r. record a { refcount = r })
        (ap (set a.refcount (addr / 4096)) back ∙ set-get_or a.refcount (addr / 4096) 0))
  where
    counted :
        count_of
          (record a {
            refcount = set a.refcount (addr / 4096) (min 65535 (count_of a (addr / 4096) + 1));
          })
          (addr / 4096)
        ≡ count_of a (addr / 4096) + 1
    counted =
        get_or-set_self a.refcount (addr / 4096) _ 0 (omega (arith, z.counts, h))
        ∙ omega (arith, few)

    not_last : (count_of a (addr / 4096) + 1 - 1 == 0) ≡ false
    not_last = ground (arith, owned)

    back : count_of a (addr / 4096) + 1 - 1 ≡ count_of a (addr / 4096)
    back = omega arith

-- What the last owner's release of frame `f` does: the frame is free and without owners, all others
-- are as before.
pub record Released (a : FrameAllocator) (f : ℕ) (b : FrameAllocator) : Type 0 where
  pub free : is_free b f ≡ true
  pub unowned : count_of b f ≡ 0
  pub others : (g : ℕ) → f ≢ g → (bit b g ≡ bit a g) × (count_of b g ≡ count_of a g)

-- The frame without owners, before its bit is cleared.
abbrev ownerless : FrameAllocator → ℕ → FrameAllocator
ownerless a f = record a { refcount = set a.refcount f 0 }

abbrev released : FrameAllocator → ℕ → FrameAllocator
released a f = record (mark_free (ownerless a f) f) {
  allocated_frames = (a.allocated_frames + (2 ^ 64 - 1)) % 2 ^ 64;
}

free_frame-released :
    (a : FrameAllocator) (f : ℕ)
    → f < 65536
    → count_of a f ≡ 1
    → free_frame a (f * 4096) ≡ released a f
unfolding free_frame
free_frame-released a f h one = simp (frame, one, inside-true f h) refl
  where
    frame : f * 4096 / 4096 ≡ f
    frame = omega arith

-- The release of a frame by its only owner makes it free, without owners, and changes no other
-- frame.
pub free_frame_last :
    (a : FrameAllocator) (f : ℕ)
    → Sized a
    → f < 65536
    → count_of a f ≡ 1
    → Released a f (free_frame a (f * 4096))
unfolding bit
free_frame_last a f z h one = subst (Released a f) (sym (free_frame-released a f h one)) (record {
  free =
      is_free-bit (released a f) f h ∙ ap (λ x. x == 0) (bit-mark_free (ownerless a f) f sized h);
  unowned =
      ap (λ xs. get_or xs f 0) (refcount-mark_free (ownerless a f) f)
      ∙ get_or-set_self a.refcount f 0 0 (omega (arith, z.counts, h));
  others = λ g ne. (
    bit-mark_free_other (ownerless a f) f g sized h ne,
    ap (λ xs. get_or xs g 0) (refcount-mark_free (ownerless a f) f)
        ∙ get_or-set_ne a.refcount f g 0 0 ne,
  );
})
  where
    sized : Sized (ownerless a f)
    sized = record { words = z.words; counts = length-set a.refcount f 0 ∙ z.counts }

-- A frame that was allocated and is released by its owner leaves the same frames free as before.
pub free_frame-allocate_frame :
    (a : FrameAllocator) (addr : ℕ) (b : FrameAllocator)
    → Sized a
    → allocate_frame a ≡ (some addr, b)
    → (g : ℕ) → g < 65536
    → is_free (free_frame b addr) g ≡ is_free a g
free_frame-allocate_frame a addr b z e g h = elim (subst (Allocates a) e (allocate_frame_lem a z)) [
  | inl (same, _) ↦ absurd (cc same)
  | inr (k, _, first, at, took) ↦
      subst (λ x. is_free (free_frame b x) g ≡ is_free a g) (sym (some-injective at))
        (restored k first.free took)
]
  where
    some-injective : {x y : ℕ} → some x ≡ some y → x ≡ y
    some-injective p = cc p

    restored :
        (k : ℕ)
        → is_free a (place a k) ≡ true
        → Took a (place a k) b
        → is_free (free_frame b (place a k * 4096)) g ≡ is_free a g
    restored k free took =
        let r = free_frame_last b (place a k) took.sized (omega arith) took.owned in
        elim (ℕ_discrete (place a k) g) [
          | yes p ↦
              ap (is_free (free_frame b (place a k * 4096))) (sym p)
              ∙ r.free
              ∙ sym free
              ∙ ap (is_free a) p
          | no p ↦
              is_free-bit (free_frame b (place a k * 4096)) g h
              ∙ ap (λ x. x == 0) ((r.others g p).0 ∙ (took.others g p).0)
              ∙ sym (is_free-bit a g h)
        ]

-- Frame `f` with one owner less: free when none is left. All others are as before.
pub record Loses (a : FrameAllocator) (f : ℕ) (b : FrameAllocator) : Type 0 where
  pub owners : count_of b f ≡ count_of a f - 1
  pub used : bit b f ≡ (if count_of a f - 1 == 0 then 0 else bit a f)
  pub others : (g : ℕ) → f ≢ g → (bit b g ≡ bit a g) × (count_of b g ≡ count_of a g)

abbrev one_less : FrameAllocator → ℕ → FrameAllocator
one_less a f = record a { refcount = set a.refcount f (count_of a f - 1) }

abbrev let_go : FrameAllocator → ℕ → FrameAllocator
let_go a f = record (mark_free (one_less a f) f) {
  allocated_frames = (a.allocated_frames + (2 ^ 64 - 1)) % 2 ^ 64;
}

one_less-Sized : (a : FrameAllocator) (f : ℕ) → Sized a → Sized (one_less a f)
one_less-Sized a f z = record {
  words = z.words;
  counts = length-set a.refcount f (count_of a f - 1) ∙ z.counts;
}

free_frame-let_go :
    (a : FrameAllocator) (addr : ℕ)
    → addr / 4096 < 65536
    → (count_of a (addr / 4096) - 1 == 0) ≡ true
    → free_frame a addr ≡ let_go a (addr / 4096)
unfolding free_frame
free_frame-let_go a addr h e = simp (inside-true (addr / 4096) h, e) refl

free_frame-one_less :
    (a : FrameAllocator) (addr : ℕ)
    → addr / 4096 < 65536
    → (count_of a (addr / 4096) - 1 == 0) ≡ false
    → free_frame a addr ≡ one_less a (addr / 4096)
unfolding free_frame
free_frame-one_less a addr h e = simp (inside-true (addr / 4096) h, e) refl

let_go-Loses :
    (a : FrameAllocator) (f : ℕ)
    → Sized a
    → f < 65536
    → (count_of a f - 1 == 0) ≡ true
    → Loses a f (let_go a f)
unfolding bit
let_go-Loses a f z h e = record {
  owners =
      ap (λ xs. get_or xs f 0) (refcount-mark_free (one_less a f) f)
      ∙ get_or-set_self a.refcount f (count_of a f - 1) 0 (omega (arith, z.counts, h));
  used = bit-mark_free (one_less a f) f (one_less-Sized a f z) h ∙ sym (last e);
  others = λ g ne. (
    bit-mark_free_other (one_less a f) f g (one_less-Sized a f z) h ne,
    ap (λ xs. get_or xs g 0) (refcount-mark_free (one_less a f) f)
        ∙ get_or-set_ne a.refcount f g (count_of a f - 1) 0 ne,
  );
}
  where
    last : (count_of a f - 1 == 0) ≡ true → (if count_of a f - 1 == 0 then 0 else bit a f) ≡ 0
    last p = simp p refl

one_less-Loses :
    (a : FrameAllocator) (f : ℕ)
    → Sized a
    → f < 65536
    → (count_of a f - 1 == 0) ≡ false
    → Loses a f (one_less a f)
unfolding bit
one_less-Loses a f z h e = record {
  owners = get_or-set_self a.refcount f (count_of a f - 1) 0 (omega (arith, z.counts, h));
  used = sym (kept e);
  others = λ g ne. (refl, get_or-set_ne a.refcount f g (count_of a f - 1) 0 ne);
}
  where
    kept :
        (count_of a f - 1 == 0) ≡ false
        → (if count_of a f - 1 == 0 then 0 else bit a f) ≡ bit (one_less a f) f
    kept p = simp p refl

-- A release takes one owner of the frame, and frees the frame when that was the last.
pub free_frame-Loses :
    (a : FrameAllocator) (addr : ℕ)
    → Sized a
    → addr / 4096 < 65536
    → Loses a (addr / 4096) (free_frame a addr)
free_frame-Loses a addr z h = elim (Bool-cases (count_of a (addr / 4096) - 1 == 0)) [
  | inl e ↦
      subst (Loses a (addr / 4096)) (sym (free_frame-let_go a addr h e))
        (let_go-Loses a (addr / 4096) z h e)
  | inr e ↦
      subst (Loses a (addr / 4096)) (sym (free_frame-one_less a addr h e))
        (one_less-Loses a (addr / 4096) z h e)
]
