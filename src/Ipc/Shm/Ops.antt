-- ===== src/Ipc/Shm/Ops.antt =====
-- What `shmget`, `shmat` and `shmdt` do on each branch, and that they keep the invariant.
use oxide_os.Prelude.{
  ℕ, ◌≡◌, ◌≢◌, ◌<◌, ◌≤◌, refl, sym, ap, ◌∙◌, true, false, ◌||◌, none, some, List, length,
  length-set, set, get_or_outside, inl, inr, ltb, ◌==◌, ℤ, pos, neg, Bool-cases, Option-cases,
  find_index, find_index-some, find_index-none, find_index-set_new, arith, dec_lt,
}
use oxide_os.Ipc.Shm.{
  ShmSegment, ShmAttach, Paging, State, segment_at, attach_at, empty_segment, max_seg_size, has_key,
  inactive_segment, pages_for, fresh_segment, shmget,
}
use oxide_os.Ipc.Shm.Valid.{
  SegmentValid, SegtabValid, AttachesValid, at_index, at_pair, SegmentValid-fresh,
}

-- A key that no segment in use has.
pub absent_key :
    (segtab : List ShmSegment) (key : ℕ)
    → find_index (has_key key) segtab ≡ none
    → (i : ℕ) → (segment_at segtab i).active ≡ true
    → (segment_at segtab i).key ≢ key
absent_key segtab key e i a k = elim (dec_lt i (length segtab)) [
  | yes h ↦
      no_clash (segment_at segtab i) a k (find_index-none (has_key key) empty_segment segtab e i h)
  | no h ↦ cc (
      sym (ap (λ (s : ShmSegment). s.active) (get_or_outside segtab i empty_segment (omega arith)))
      ∙ a)
]
  where
    no_clash : (s : ShmSegment) → s.active ≡ true → s.key ≡ key → has_key key s ≡ false → ⊥
    no_clash s a k f = ground arith

pub fresh-SegtabValid :
    (segtab : List ShmSegment) (slot key size phys : ℕ)
    → SegtabValid segtab
    → find_index (has_key key) segtab ≡ none
    → find_index inactive_segment segtab ≡ some slot
    → 0 < size
    → size ≤ max_seg_size
    → SegtabValid (set segtab slot (fresh_segment key size phys))
fresh-SegtabValid segtab slot key size phys v absent free h k =
    let s = fresh_segment key size phys in
    let f = find_index-some inactive_segment empty_segment segtab free in
    record {
      slots = length-set segtab slot s ∙ v.slots;
      each =
          at_index (λ _ x. x.active ≡ true → SegmentValid x) segtab slot s empty_segment f.0
            (λ _. SegmentValid-fresh key size phys h k) (λ i _ a. v.each i a);
      keys =
          at_pair (λ i x j y. x.active ≡ true → y.active ≡ true → x.key ≡ y.key → i ≡ j) segtab slot
            s empty_segment f.0 (λ _ _ _. refl)
            (λ j _ _ b e. absurd (absent_key segtab key absent j b (sym e ∙ key_of)))
            (λ j _ a _ e. absurd (absent_key segtab key absent j a (e ∙ key_of))) v.keys;
    }
  where
    key_of : (fresh_segment key size phys).key ≡ key
    key_of = unfold fresh_segment in refl

-- A segment that comes into use disturbs no attachment: none was to its slot.
pub fresh-AttachesValid :
    (segtab : List ShmSegment) (attaches : List ShmAttach) (slot key size phys : ℕ)
    → slot < length segtab
    → AttachesValid segtab attaches
    → AttachesValid (set segtab slot (fresh_segment key size phys)) attaches
fresh-AttachesValid segtab attaches slot key size phys h v = record {
  slots = v.slots;
  clear = v.clear;
  each = λ i a.
      let w = v.each i a in
      record {
        known = w.known;
        placed = w.placed;
        live =
            at_index (λ k x. (segment_at segtab k).active ≡ true → x.active ≡ true) segtab slot
              (fresh_segment key size phys) empty_segment h (λ _. unfold fresh_segment in refl)
              (λ k _ b. b) (attach_at attaches i).shmid w.live;
      };
  once = v.once;
}

module _ (paging : Paging) where
  open paging use {Memory, alloc_phys_frames, map_phys_pages_in}

  -- The outcomes of `shmget`.
  pub data Gets (s : State Memory) (key size : ℕ) : ℤ × State Memory → Type 0 where
    bad_size : (size == 0 || ltb max_seg_size size) ≡ true → Gets s key size (neg 22, s)
    existing : (i : ℕ) → find_index (has_key key) s.segtab ≡ some i → Gets s key size (pos i, s)
    no_slot :
        find_index (has_key key) s.segtab ≡ none
        → find_index inactive_segment s.segtab ≡ none
        → Gets s key size (neg 28, s)
    no_frames :
        find_index (has_key key) s.segtab ≡ none
        → (alloc_phys_frames s.memory (pages_for size)).0 ≡ 0
        → Gets s key size
            (neg 12, record s { memory = (alloc_phys_frames s.memory (pages_for size)).1 })
    created :
        (slot : ℕ)
        → 0 < size
        → size ≤ max_seg_size
        → find_index (has_key key) s.segtab ≡ none
        → find_index inactive_segment s.segtab ≡ some slot
        → (alloc_phys_frames s.memory (pages_for size)).0 ≢ 0
        → Gets s key size (
          pos slot,
          record s {
            segtab =
                set s.segtab slot
                  (fresh_segment key size (alloc_phys_frames s.memory (pages_for size)).0);
            memory = (alloc_phys_frames s.memory (pages_for size)).1;
          },
        )

  pub shmget-Gets : (s : State Memory) (key size : ℕ) → Gets s key size (shmget paging s key size)
  unfolding shmget
  shmget-Gets s key size = elim (Bool-cases (size == 0 || ltb max_seg_size size)) [
    | inl bad ↦ simp (bad, shmget) (bad_size bad)
    | inr good ↦ elim (Option-cases (find_index (has_key key) s.segtab)) [
      | inr (i, e) ↦ simp (good, e, shmget) (existing i e)
      | inl e ↦ elim (Option-cases (find_index inactive_segment s.segtab)) [
        | inl full ↦ simp (good, e, full, shmget) (no_slot e full)
        | inr (slot, free) ↦
            elim (Bool-cases ((alloc_phys_frames s.memory (pages_for size)).0 == 0)) [
              | inl oom ↦ simp (good, e, free, oom, shmget) (no_frames e (ground arith))
              | inr got ↦
                  simp (good, e, free, got, shmget)
                    (created slot (ground arith) (ground arith) e free (ground arith))
            ]
      ]
    ]
  ]

  Gets-Valid :
      (s : State Memory) (key size : ℕ) {out : ℤ × State Memory}
      → Gets s key size out
      → SegtabValid s.segtab
      → AttachesValid s.segtab s.attaches
      → SegtabValid out.1.segtab × AttachesValid out.1.segtab out.1.attaches
  Gets-Valid s key size (bad_size _) v w = (v, w)
  Gets-Valid s key size (existing i _) v w = (v, w)
  Gets-Valid s key size (no_slot _ _) v w = (v, w)
  Gets-Valid s key size (no_frames _ _) v w = (v, w)
  Gets-Valid s key size (created slot h k e free got) v w = (
    fresh-SegtabValid s.segtab slot key size _ v e free h k,
    fresh-AttachesValid s.segtab s.attaches slot key size _
        (find_index-some inactive_segment empty_segment s.segtab free).0 w,
  )

  -- `shmget` keeps the invariants of the segments and of every attachment table.
  pub shmget-Valid :
      (s : State Memory) (key size : ℕ)
      → SegtabValid s.segtab
      → AttachesValid s.segtab s.attaches
      → SegtabValid (shmget paging s key size).1.segtab
        × AttachesValid (shmget paging s key size).1.segtab (shmget paging s key size).1.attaches
  shmget-Valid s key size = Gets-Valid s key size (shmget-Gets s key size)

  again :
      (s : State Memory) (key size : ℕ) (i : ℕ)
      → 0 < size
      → size ≤ max_seg_size
      → find_index (has_key key) s.segtab ≡ some i
      → shmget paging s key size ≡ (pos i, s)
  unfolding shmget
  again s key size i h k e = simp (good, e, shmget)
    where
      good : (size == 0 || ltb max_seg_size size) ≡ false
      good = ground arith

  Gets-found :
      (s : State Memory) (key size i : ℕ) {out : ℤ × State Memory}
      → Gets s key size out
      → out.0 ≡ pos i
      → find_index (has_key key) out.1.segtab ≡ some i
  Gets-found s key size i (bad_size _) e = cc
  Gets-found s key size i (existing j f) e = f ∙ cc
  Gets-found s key size i (no_slot _ _) e = cc
  Gets-found s key size i (no_frames _ _) e = cc
  Gets-found s key size i (created slot h k absent free got) e =
      find_index-set_new (has_key key) empty_segment s.segtab slot
        (fresh_segment key size (alloc_phys_frames s.memory (pages_for size)).0)
        (find_index-some inactive_segment empty_segment s.segtab free).0 absent
        (unfold fresh_segment in ground arith)
      ∙ cc

  -- Once `shmget` has returned a segment for a key, every later call with that key and a size in
  -- range returns the same segment and changes nothing.
  pub shmget_again :
      (s : State Memory) (key size size' i : ℕ)
      → (shmget paging s key size).0 ≡ pos i
      → 0 < size'
      → size' ≤ max_seg_size
      → let s' = (shmget paging s key size).1 in shmget paging s' key size' ≡ (pos i, s')
  shmget_again s key size size' i e h k =
      again _ key size' i h k (Gets-found s key size i (shmget-Gets s key size) e)
