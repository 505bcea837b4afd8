-- ===== src/Prelude/Circular.antt =====
-- Circular buffers with a read position `head` and a write position `tail` over `size` slots, of
-- which one stays free: the layout of the pipes, the keyboard buffer and the message queues.
use Prim.Native.Nat.{ℕ, zero, suc, ◌+◌, ◌-◌, ◌%◌, ◌<◌, ◌≤◌}
use mathlib.Core.Path.{◌≡◌, refl, sym, ap, ap₂, ◌∙◌}
use mathlib.Core.Logic.{◌≢◌}
use mathlib.Core.List.{List, [], ◌∷◌, ◌++◌}
use native.Mathlib.Nat.{mod-add-mod, mod-eq_of_lt, mod-eq-sub-mod, add-zero}
use native.Mathlib.Decide.{dec_lt}
use native.Mathlib.Numerals.{add-one}
use native.Mathlib.Omega.{arith}
use oxide_os.Prelude.Lists.{length, get_or, set, get_or-set_self, get_or-set_ne}

-- The number of items between the positions.
abbrev pub used : ℕ → ℕ → ℕ → ℕ
used size head tail = (tail + size - head) % size

mod-once : (n size : ℕ) → size ≤ n → n < size + size → n % size ≡ n - size
mod-once n size h k = mod-eq-sub-mod h ∙ mod-eq_of_lt (omega arith)

used_ahead : (size head tail : ℕ) → head ≤ tail → tail < size → used size head tail ≡ tail - head
used_ahead size head tail h k =
    mod-once (tail + size - head) size (omega arith) (omega arith) ∙ omega arith

used_behind :
    (size head tail : ℕ) → tail < head → head < size → used size head tail ≡ tail + size - head
used_behind size head tail h k = mod-eq_of_lt (omega arith)

pub used-lt : (size head tail : ℕ) → 0 < size → used size head tail < size
used-lt size head tail h = omega arith

-- The buffer is empty exactly when the positions agree.
pub used-ne-zero :
    (size head tail : ℕ) → head < size → tail < size → head ≢ tail → used size head tail ≢ 0
used-ne-zero size head tail h k ne = elim (dec_lt tail head) [
  | yes p ↦ rw (used_behind size head tail p h) (omega arith)
  | no p ↦ rw (used_ahead size head tail (omega arith) k) (omega arith)
]

pub used_self : (size i : ℕ) → i < size → used size i i ≡ 0
used_self size i h = used_ahead size i i (omega arith) h ∙ omega arith

-- Moving the write position on adds one, if the buffer is not full.
pub used-push :
    (size head tail : ℕ)
    → head < size
    → tail < size
    → (tail + 1) % size ≢ head
    → used size head ((tail + 1) % size) ≡ used size head tail + 1
used-push size head tail h k ne = elim (dec_lt (suc tail) size) [
  | yes p ↦ inside p (mod-eq_of_lt (omega arith))
  | no p ↦ last (omega arith) (mod-once (tail + 1) size (omega arith) (omega arith) ∙ omega arith)
]
  where
    inside :
        suc tail < size
        → (tail + 1) % size ≡ tail + 1
        → used size head ((tail + 1) % size) ≡ used size head tail + 1
    inside p e = rw e (elim (dec_lt tail head) [
      | yes q ↦
          rw (used_behind size head tail q h)
            (used_behind size head (tail + 1) (omega arith) h ∙ omega arith)
      | no q ↦
          rw (used_ahead size head tail (omega arith) k)
            (used_ahead size head (tail + 1) (omega arith) (omega arith) ∙ omega arith)
    ])

    last :
        suc tail ≡ size
        → (tail + 1) % size ≡ 0
        → used size head ((tail + 1) % size) ≡ used size head tail + 1
    last p e =
        rw (e, used_ahead size head tail (omega arith) k)
          (used_behind size head 0 (omega arith) h ∙ omega arith)

-- Moving the read position on removes one, if the buffer is not empty.
pub used-pop :
    (size head tail : ℕ)
    → head < size
    → tail < size
    → head ≢ tail
    → used size head tail ≡ suc (used size ((head + 1) % size) tail)
used-pop size head tail h k ne = elim (dec_lt (suc head) size) [
  | yes p ↦ inside p (mod-eq_of_lt (omega arith))
  | no p ↦ last (omega arith) (mod-once (head + 1) size (omega arith) (omega arith) ∙ omega arith)
]
  where
    inside :
        suc head < size
        → (head + 1) % size ≡ head + 1
        → used size head tail ≡ suc (used size ((head + 1) % size) tail)
    inside p e = rw e (elim (dec_lt tail head) [
      | yes q ↦
          rw
            (
              used_behind size head tail q h,
              used_behind size (head + 1) tail (omega arith) (omega arith),
            )
            (omega arith)
      | no q ↦
          rw
            (
              used_ahead size head tail (omega arith) k,
              used_ahead size (head + 1) tail (omega arith) k,
            )
            (omega arith)
    ])

    last :
        suc head ≡ size
        → (head + 1) % size ≡ 0
        → used size head tail ≡ suc (used size ((head + 1) % size) tail)
    last p e =
        rw (e, used_behind size head tail (omega arith) h, used_ahead size 0 tail (omega arith) k)
          (omega arith)

module _ {ℓ} {A : Type ℓ} (default : A) (size : ℕ) where
  -- The `n` items from index `h` on, going round at `size`.
  abbrev pub window : List A → ℕ → ℕ → List A
  window buf h zero = []
  window buf h (suc n) = get_or buf h default ∷ window buf ((h + 1) % size) n

  -- The items of the buffer, oldest first.
  abbrev pub contents : List A → ℕ → ℕ → List A
  contents buf head tail = window buf head (used size head tail)

  length-window : (buf : List A) (h n : ℕ) → length (window buf h n) ≡ n
  length-window buf h zero = refl
  length-window buf h (suc n) = ap suc (length-window buf ((h + 1) % size) n)

  pub length-contents :
      (buf : List A) (head tail : ℕ) → length (contents buf head tail) ≡ used size head tail
  length-contents buf head tail = length-window buf head (used size head tail)

  -- A window one longer ends with the item behind the shorter one.
  window_last :
      (buf : List A) (n h : ℕ)
      → h < size
      → window buf h (suc n) ≡ window buf h n ++ (get_or buf ((h + n) % size) default ∷ [])
  window_last buf zero h k = rw (add-zero, mod-eq_of_lt k)
  window_last buf (suc n) h k =
      ap (◌∷◌ (get_or buf h default))
        (window_last buf n ((h + 1) % size) (omega arith) ∙ ap (snoc (window buf next n)) same)
    where
      next : ℕ
      next = (h + 1) % size

      snoc : List A → ℕ → List A
      snoc xs i = xs ++ (get_or buf i default ∷ [])

      same : (next + n) % size ≡ (h + suc n) % size
      same = rw mod-add-mod (ap (λ k. k % size) (omega arith))

  -- A write outside the window does not show in it.
  window_untouched :
      (buf : List A) (x : A) (i n h : ℕ)
      → h < size
      → ((k : ℕ) → k < n → (h + k) % size ≢ i)
      → window (set buf i x) h n ≡ window buf h n
  window_untouched buf x i zero h k out = refl
  window_untouched buf x i (suc n) h k out =
      ap₂ ◌∷◌ (get_or-set_ne buf i h x default (λ e. out 0 (omega arith) (here ∙ sym e))) (
        window_untouched buf x i n ((h + 1) % size) (omega arith)
          (λ j l e. out (suc j) (omega arith) (further j ∙ e)))
    where
      here : (h + 0) % size ≡ h
      here = rw (add-zero, mod-eq_of_lt k)

      further : (j : ℕ) → (h + suc j) % size ≡ ((h + 1) % size + j) % size
      further j = rw mod-add-mod (ap (λ m. m % size) (omega arith))

  -- Different offsets below `size` are different places.
  offset-ne : (h k n : ℕ) → h < size → k < n → n < size → (h + k) % size ≢ (h + n) % size
  offset-ne h k n hh hk hn e = elim (dec_lt (h + n) size) [
    | yes p ↦ omega (arith, mod-eq_of_lt p, mod-eq_of_lt {n = h + k} {m = size} (omega arith))
    | no p ↦ elim (dec_lt (h + k) size) [
      | yes q ↦ omega (arith, mod-eq_of_lt q, mod-once (h + n) size (omega arith) (omega arith))
      | no q ↦ omega (
        arith,
        mod-once (h + k) size (omega arith) (omega arith),
        mod-once (h + n) size (omega arith) (omega arith),
      )
    ]
  ]

  head-add-used :
      (head tail : ℕ) → head < size → tail < size → tail ≡ (head + used size head tail) % size
  head-add-used head tail h k = elim (dec_lt tail head) [
    | yes p ↦
        rw (used_behind size head tail p h)
          (omega (arith, mod-once (head + (tail + size - head)) size (omega arith) (omega arith)))
    | no p ↦
        rw (used_ahead size head tail (omega arith) k)
          (omega (arith, mod-eq_of_lt {n = head + (tail - head)} {m = size} (omega arith)))
  ]

  -- Writing at `tail` and moving it on appends the item.
  pub contents-push :
      (buf : List A) (x : A) (head tail : ℕ)
      → size ≤ length buf
      → head < size
      → tail < size
      → (tail + 1) % size ≢ head
      → contents (set buf tail x) head ((tail + 1) % size) ≡ contents buf head tail ++ (x ∷ [])
  contents-push buf x head tail hs h k ne =
      rw (used-push size head tail h k ne, add-one)
        (window_last (set buf tail x) count head h
          ∙ ap₂ (λ xs (y : A). xs ++ (y ∷ []))
              (window_untouched buf x tail count head h
                (λ j l e. offset-ne head j count h l below (e ∙ end)))
              (rw (← end) (get_or-set_self buf tail x default (omega arith))))
    where
      count : ℕ
      count = used size head tail

      below : count < size
      below = used-lt size head tail (omega arith)

      end : tail ≡ (head + count) % size
      end = head-add-used head tail h k

  -- Moving `head` on removes the oldest item.
  pub contents-pop :
      (buf : List A) (head tail : ℕ)
      → head < size
      → tail < size
      → head ≢ tail
      → contents buf head tail ≡ get_or buf head default ∷ contents buf ((head + 1) % size) tail
  contents-pop buf head tail h k ne = ap (window buf head) (used-pop size head tail h k ne)

  pub contents_empty : (buf : List A) (i : ℕ) → i < size → contents buf i i ≡ []
  contents_empty buf i h = ap (window buf i) (used_self size i h)
