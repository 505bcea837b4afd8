-- ===== src/Mem/Frames/Bitmap.antt =====
-- The bitmap as a set of frames: what a mark does to the frame's own bit, and that it leaves all
-- others.
use Prim.Native.Nat.{bit_and, bit_or}
use oxide_os.Prelude.{
  ℕ, ◌-◌, ◌/◌, ◌%◌, ◌^◌, ◌<◌, true, ◌≡◌, ◌≢◌, ◌↔◌, inl, inr, refl, sym, ap, ◌∙◌, ◌==◌, ==_iff, ltb,
  List, length, get_or, set, length-set, get_or-set_self, get_or-set_ne, Bool-cases, ℕ_discrete,
  arith,
}
use oxide_os.Prelude.Bits.{
  digit, digit-lt, digit-bit_and, digit-bit_or, digit-pow, digit-pow_other, digit-complement,
  bit_test, pow_lt,
}
use oxide_os.Mem.Frames.{FrameAllocator, mask_of, word_of, mark_free, mark_used, is_free}

-- 1 for a frame that is in use.
unfoldable pub bit : FrameAllocator → ℕ → ℕ
unfolding digit
bit a frame = digit (frame % 64) (word_of a frame)

-- The tables have their sizes.
pub record Sized (a : FrameAllocator) : Type 0 where
  pub words : length a.bitmap ≡ 1024
  pub counts : length a.refcount ≡ 65536

pub bit-lt : (a : FrameAllocator) (f : ℕ) → bit a f < 2
unfolding bit
bit-lt a f = digit-lt (f % 64) (word_of a f)

same_test : (x y : ℕ) → (x ≡ 0 ↔ y ≡ 0) → (x == 0) ≡ (y == 0)
same_test x y h = elim (Bool-cases (y == 0)) [
  | inl e ↦ (==_iff x 0).1 (h.1 ((==_iff y 0).0 e)) ∙ sym e
  | inr e ↦ elim (Bool-cases (x == 0)) [
    | inl f ↦ f ∙ sym ((==_iff y 0).1 (h.0 ((==_iff x 0).0 f)))
    | inr f ↦ f ∙ sym e
  ]
]

-- A frame is free when it has a bit and that is 0.
pub is_free-bit : (a : FrameAllocator) (f : ℕ) → f < 65536 → is_free a f ≡ (bit a f == 0)
unfolding is_free bit
is_free-bit a f h =
    simp inside
      (same_test (bit_and (word_of a f) (mask_of f)) (bit a f) (bit_test (word_of a f) (f % 64)))
  where
    inside : ltb f 65536 ≡ true
    inside = ground (arith, h)

-- What a written word holds of a frame's bit.
bit_at : ℕ → ℕ → List ℕ → ℕ
bit_at frame k words = digit k (get_or words (frame / 64) 0)

-- A word written in the place of frame `f` whose other digits are the old ones.
record Marks (words : List ℕ) (f v : ℕ) (word : ℕ) : Type 0 where
  own : digit (f % 64) word ≡ v
  others : (k : ℕ) → f % 64 ≢ k → k < 64 → digit k word ≡ digit k (get_or words (f / 64) 0)

marked_self :
    (words : List ℕ) (f v word : ℕ)
    → length words ≡ 1024
    → f < 65536
    → Marks words f v word
    → bit_at f (f % 64) (set words (f / 64) word) ≡ v
unfolding bit_at
marked_self words f v word l h m =
    ap (digit (f % 64)) (get_or-set_self words (f / 64) word 0 (omega (arith, l, h))) ∙ m.own

marked_other :
    (words : List ℕ) (f g v word : ℕ)
    → length words ≡ 1024
    → f < 65536
    → f ≢ g
    → Marks words f v word
    → bit_at g (g % 64) (set words (f / 64) word) ≡ bit_at g (g % 64) words
unfolding bit_at
marked_other words f g v word l h ne m = elim (ℕ_discrete (f / 64) (g / 64)) [
  | no p ↦ ap (digit (g % 64)) (get_or-set_ne words (f / 64) (g / 64) word 0 p)
  | yes p ↦
      ap (λ i. digit (g % 64) (get_or (set words (f / 64) word) i 0)) (sym p)
      ∙ ap (digit (g % 64)) (get_or-set_self words (f / 64) word 0 (omega (arith, l, h)))
      ∙ m.others (g % 64) (λ q. ne (omega (arith, p, q))) (omega arith)
      ∙ ap (λ i. digit (g % 64) (get_or words i 0)) p
]

used_Marks :
    (words : List ℕ) (f : ℕ) → Marks words f 1 (bit_or (get_or words (f / 64) 0) (mask_of f))
used_Marks words f = record {
  own =
      digit-bit_or (f % 64) (get_or words (f / 64) 0) (mask_of f)
      ∙ omega (arith, digit-pow (f % 64), digit-lt (f % 64) (get_or words (f / 64) 0));
  others = λ k ne l.
      digit-bit_or k (get_or words (f / 64) 0) (mask_of f)
      ∙ omega (arith, digit-pow_other k (f % 64) ne);
}

freed_Marks :
    (words : List ℕ) (f : ℕ)
    → Marks words f 0 (bit_and (get_or words (f / 64) 0) (2 ^ 64 - 1 - mask_of f))
freed_Marks words f = record {
  own =
      digit-bit_and (f % 64) (get_or words (f / 64) 0) (2 ^ 64 - 1 - mask_of f)
      ∙ omega (arith, digit-pow (f % 64), cleared (f % 64) (omega arith));
  others = λ k ne l.
      digit-bit_and k (get_or words (f / 64) 0) (2 ^ 64 - 1 - mask_of f)
      ∙ omega
          (arith, digit-pow_other k (f % 64) ne, cleared k l, digit-lt k (get_or words (f / 64) 0));
}
  where
    cleared : (k : ℕ) → k < 64 → digit k (2 ^ 64 - 1 - mask_of f) ≡ 1 - digit k (mask_of f)
    cleared k l = digit-complement k 64 (mask_of f) l (pow_lt (f % 64) 64 (omega arith))

pub inside-true : (f : ℕ) → f < 65536 → ltb f 65536 ≡ true
inside-true f h = ground (arith, h)

pub bit-mark_used : (a : FrameAllocator) (f : ℕ) → Sized a → f < 65536 → bit (mark_used a f) f ≡ 1
unfolding mark_used bit bit_at
bit-mark_used a f z h =
    simp (inside-true f h) (marked_self a.bitmap f 1 _ z.words h (used_Marks a.bitmap f))

pub bit-mark_used_other :
    (a : FrameAllocator) (f g : ℕ) → Sized a → f < 65536 → f ≢ g → bit (mark_used a f) g ≡ bit a g
unfolding mark_used bit bit_at
bit-mark_used_other a f g z h ne =
    simp (inside-true f h) (marked_other a.bitmap f g 1 _ z.words h ne (used_Marks a.bitmap f))

pub bit-mark_free : (a : FrameAllocator) (f : ℕ) → Sized a → f < 65536 → bit (mark_free a f) f ≡ 0
unfolding mark_free bit bit_at
bit-mark_free a f z h =
    simp (inside-true f h) (marked_self a.bitmap f 0 _ z.words h (freed_Marks a.bitmap f))

pub bit-mark_free_other :
    (a : FrameAllocator) (f g : ℕ) → Sized a → f < 65536 → f ≢ g → bit (mark_free a f) g ≡ bit a g
unfolding mark_free bit bit_at
bit-mark_free_other a f g z h ne =
    simp (inside-true f h) (marked_other a.bitmap f g 0 _ z.words h ne (freed_Marks a.bitmap f))

pub mark_used-Sized : (a : FrameAllocator) (f : ℕ) → Sized a → Sized (mark_used a f)
unfolding mark_used
mark_used-Sized a f z = elim (Bool-cases (ltb f 65536)) [
  | inl e ↦ simp e (record { words = length-set a.bitmap (f / 64) _ ∙ z.words; counts = z.counts })
  | inr e ↦ simp e z
]

pub mark_free-Sized : (a : FrameAllocator) (f : ℕ) → Sized a → Sized (mark_free a f)
unfolding mark_free
mark_free-Sized a f z = elim (Bool-cases (ltb f 65536)) [
  | inl e ↦ simp e (record { words = length-set a.bitmap (f / 64) _ ∙ z.words; counts = z.counts })
  | inr e ↦ simp e z
]

-- A mark leaves the counts.
pub refcount-mark_used : (a : FrameAllocator) (f : ℕ) → (mark_used a f).refcount ≡ a.refcount
unfolding mark_used
refcount-mark_used a f = elim (Bool-cases (ltb f 65536)) [
  | inl e ↦ simp e refl
  | inr e ↦ simp e refl
]

pub refcount-mark_free : (a : FrameAllocator) (f : ℕ) → (mark_free a f).refcount ≡ a.refcount
unfolding mark_free
refcount-mark_free a f = elim (Bool-cases (ltb f 65536)) [
  | inl e ↦ simp e refl
  | inr e ↦ simp e refl
]
