-- ===== src/Ipc/Shm/Valid.antt =====
-- The invariant of the segments and of a process's attachments.
use oxide_os.Prelude.{
  ℕ, ◌+◌, ◌*◌, ◌≡◌, ◌≢◌, ◌<◌, ◌≤◌, ◌⊎◌, refl, sym, subst, true, false, List, length, get_or, set,
  get_or-set_self, get_or-set_ne, inl, inr, arith, ℕ_discrete, dec_lt,
}
use oxide_os.Ipc.Shm.{
  ShmSegment, ShmAttach, segment_at, attach_at, empty_attach, max_segments, max_attach,
  max_seg_size, page_size, vaddr_of, fresh_segment,
}

-- A segment in use has between one page and 256, and its size is theirs.
pub record SegmentValid (s : ShmSegment) : Type 0 where
  pub some_pages : 0 < s.pages
  pub few_pages : s.pages * page_size ≤ max_seg_size
  pub size_pages : s.size ≡ s.pages * page_size

pub record SegtabValid (segtab : List ShmSegment) : Type 0 where
  pub slots : length segtab ≡ max_segments
  pub each : (i : ℕ) → (segment_at segtab i).active ≡ true → SegmentValid (segment_at segtab i)
  pub keys :
      (i j : ℕ)
      → (segment_at segtab i).active ≡ true
      → (segment_at segtab j).active ≡ true
      → (segment_at segtab i).key ≡ (segment_at segtab j).key
      → i ≡ j

-- An attachment is to a segment in use, at the address of that segment.
pub record AttachValid (segtab : List ShmSegment) (a : ShmAttach) : Type 0 where
  pub known : a.shmid < max_segments
  pub placed : a.vaddr ≡ vaddr_of a.shmid
  pub live : (segment_at segtab a.shmid).active ≡ true

pub record AttachesValid (segtab : List ShmSegment) (attaches : List ShmAttach) : Type 0 where
  pub slots : length attaches ≡ max_attach
  pub clear : (i : ℕ) → (attach_at attaches i).active ≡ false → attach_at attaches i ≡ empty_attach
  pub each :
      (i : ℕ) → (attach_at attaches i).active ≡ true → AttachValid segtab (attach_at attaches i)
  pub once :
      (i j : ℕ)
      → (attach_at attaches i).active ≡ true
      → (attach_at attaches j).active ≡ true
      → (attach_at attaches i).shmid ≡ (attach_at attaches j).shmid
      → i ≡ j

-- What stands at each index of a written array.
pub at_index {ℓ κ} :
    {A : Type ℓ} (P : ℕ → A → Type κ) (xs : List A) (i : ℕ) (v d : A)
    → i < length xs
    → P i v
    → ((k : ℕ) → i ≢ k → P k (get_or xs k d))
    → (k : ℕ) → P k (get_or (set xs i v) k d)
at_index P xs i v d h here there k = elim (ℕ_discrete i k) [
  | yes e ↦
      subst (λ m. P m (get_or (set xs i v) m d)) e
        (subst (P i) (sym (get_or-set_self xs i v d h)) here)
  | no ne ↦ subst (P k) (sym (get_or-set_ne xs i k v d ne)) (there k ne)
]

-- Two relations of a written array: between old items, and between the new one and the old.
pub at_pair {ℓ κ} :
    {A : Type ℓ} (R : ℕ → A → ℕ → A → Type κ) (xs : List A) (i : ℕ) (v d : A)
    → i < length xs
    → R i v i v
    → ((k : ℕ) → i ≢ k → R i v k (get_or xs k d))
    → ((k : ℕ) → i ≢ k → R k (get_or xs k d) i v)
    → ((k l : ℕ) → R k (get_or xs k d) l (get_or xs l d))
    → (k l : ℕ) → R k (get_or (set xs i v) k d) l (get_or (set xs i v) l d)
at_pair R xs i v d h both left right old k l =
    at_index (λ m x. R m x l (get_or (set xs i v) l d)) xs i v d h
      (at_index (λ n y. R i v n y) xs i v d h both left l)
      (λ m ne. at_index (λ n y. R m (get_or xs m d) n y) xs i v d h (right m ne) (λ n _. old m n) l)
      k

pub SegmentValid-fresh :
    (key size phys : ℕ)
    → 0 < size
    → size ≤ max_seg_size
    → SegmentValid (fresh_segment key size phys)
unfolding fresh_segment
SegmentValid-fresh key size phys h k = record {
  some_pages = omega arith;
  few_pages = omega arith;
  size_pages = refl;
}

-- The address ranges of two attachments of one process do not meet.
pub attachments_disjoint :
    (segtab : List ShmSegment) (attaches : List ShmAttach) (i j : ℕ)
    → SegtabValid segtab
    → AttachesValid segtab attaches
    → (attach_at attaches i).active ≡ true
    → (attach_at attaches j).active ≡ true
    → i ≢ j
    → let a = attach_at attaches i in
      let b = attach_at attaches j in
      (a.vaddr + (segment_at segtab a.shmid).pages * page_size ≤ b.vaddr)
      ⊎ (b.vaddr + (segment_at segtab b.shmid).pages * page_size ≤ a.vaddr)
attachments_disjoint segtab attaches i j sv av hi hj ne =
    apart _ _ _ _ (av.each i hi).placed (av.each j hj).placed
      (sv.each _ (av.each i hi).live).few_pages (sv.each _ (av.each j hj).live).few_pages
      (λ e. ne (av.once i j hi hj e))
  where
    apart :
        (a b p q : ℕ) {va vb : ℕ}
        → va ≡ vaddr_of a
        → vb ≡ vaddr_of b
        → p * page_size ≤ max_seg_size
        → q * page_size ≤ max_seg_size
        → a ≢ b
        → (va + p * page_size ≤ vb) ⊎ (vb + q * page_size ≤ va)
    apart a b p q ea eb hp hq diff = elim (dec_lt a b) [
      | yes lt ↦ inl (omega arith)
      | no ge ↦ inr (omega arith)
    ]
