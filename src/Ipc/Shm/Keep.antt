-- ===== src/Ipc/Shm/Keep.antt =====
-- `shmat` and `shmdt` keep the invariants, and the states at boot meet them.
use oxide_os.Prelude.{
  ℕ, ◌≡◌, ◌≢◌, ◌<◌, refl, sym, ap, ◌∙◌, true, false, ◌&&◌, none, List, length, length-set,
  length-replicate, get_or-replicate, get_or_outside, set, replicate, ltb, ℤ, Bool-cases,
  Option-cases, inl, inr, find_index, find_index-some, find_index-none, arith, dec_lt,
}
use oxide_os.Ipc.Shm.{
  ShmSegment, ShmAttach, Paging, State, segment_at, attach_at, empty_segment, empty_attach,
  max_segments, max_attach, inactive_attach, attached_to, attached_at, retained, dropped, shmat,
  shmdt,
}
use oxide_os.Ipc.Shm.Valid.{
  SegmentValid, SegtabValid, AttachValid, AttachesValid, at_index, at_pair,
}
use oxide_os.Ipc.Shm.Round.{
  Attaches, no_segment, already, no_room, unmapped, mapped, shmat-Attaches,
}

unfoldable pub segtab_init : List ShmSegment
segtab_init = replicate max_segments empty_segment

unfoldable pub attaches_init : List ShmAttach
attaches_init = replicate max_attach empty_attach

pub segtab_init-SegtabValid : SegtabValid segtab_init
unfolding segtab_init
segtab_init-SegtabValid = record {
  slots = length-replicate max_segments empty_segment;
  each = λ i a. cc (sym (idle i) ∙ a);
  keys = λ i j a b e. cc (sym (idle i) ∙ a);
}
  where
    idle : (i : ℕ) → (segment_at (replicate max_segments empty_segment) i).active ≡ false
    idle i = ap (λ (s : ShmSegment). s.active) (get_or-replicate max_segments i empty_segment)

pub attaches_init-AttachesValid : (segtab : List ShmSegment) → AttachesValid segtab attaches_init
unfolding attaches_init
attaches_init-AttachesValid segtab = record {
  slots = length-replicate max_attach empty_attach;
  clear = λ i a. get_or-replicate max_attach i empty_attach;
  each = λ i a. cc (sym (idle i) ∙ a);
  once = λ i j a b e. cc (sym (idle i) ∙ a);
}
  where
    idle : (i : ℕ) → (attach_at (replicate max_attach empty_attach) i).active ≡ false
    idle i = ap (λ (a : ShmAttach). a.active) (get_or-replicate max_attach i empty_attach)

-- A change of one segment's reference count.
Recount : ShmSegment → ShmSegment → Type 0
Recount s t = (t.active ≡ s.active) × (t.key ≡ s.key) × (t.pages ≡ s.pages) × (t.size ≡ s.size)

retained-Recount : (s : ShmSegment) → Recount s (retained s)
unfolding retained Recount
retained-Recount s = (refl, refl, refl, refl)

dropped-Recount : (s : ShmSegment) → Recount s (dropped s)
unfolding dropped Recount
dropped-Recount s = (refl, refl, refl, refl)

Recount-SegmentValid : (s t : ShmSegment) → Recount s t → SegmentValid s → SegmentValid t
unfolding Recount
Recount-SegmentValid s t r v = record {
  some_pages = omega (arith, r.2, v.some_pages);
  few_pages = omega (arith, r.2, v.few_pages);
  size_pages = omega (arith, r.2, r.3, v.size_pages);
}

Recount-SegtabValid :
    (segtab : List ShmSegment) (i : ℕ) (t : ShmSegment)
    → i < length segtab
    → (segment_at segtab i).active ≡ true
    → Recount (segment_at segtab i) t
    → SegtabValid segtab
    → SegtabValid (set segtab i t)
unfolding Recount
Recount-SegtabValid segtab i t h on r v = record {
  slots = length-set segtab i t ∙ v.slots;
  each =
      at_index (λ _ x. x.active ≡ true → SegmentValid x) segtab i t empty_segment h
        (λ _. Recount-SegmentValid (segment_at segtab i) t r (v.each i on)) (λ k _ a. v.each k a);
  keys =
      at_pair (λ k x l y. x.active ≡ true → y.active ≡ true → x.key ≡ y.key → k ≡ l) segtab i t
        empty_segment h (λ _ _ _. refl) (λ l _ _ b e. v.keys i l on b (sym r.1 ∙ e))
        (λ k _ a _ e. v.keys k i a on (e ∙ r.1)) v.keys;
}

Recount-AttachValid :
    (segtab : List ShmSegment) (i : ℕ) (t : ShmSegment) (a : ShmAttach)
    → i < length segtab
    → (segment_at segtab i).active ≡ true
    → Recount (segment_at segtab i) t
    → AttachValid segtab a
    → AttachValid (set segtab i t) a
unfolding Recount
Recount-AttachValid segtab i t a h on r v = record {
  known = v.known;
  placed = v.placed;
  live =
      at_index (λ k x. (segment_at segtab k).active ≡ true → x.active ≡ true) segtab i t
        empty_segment h (λ _. r.0 ∙ on) (λ k _ b. b) a.shmid v.live;
}

Recount-AttachesValid :
    (segtab : List ShmSegment) (attaches : List ShmAttach) (i : ℕ) (t : ShmSegment)
    → i < length segtab
    → (segment_at segtab i).active ≡ true
    → Recount (segment_at segtab i) t
    → AttachesValid segtab attaches
    → AttachesValid (set segtab i t) attaches
Recount-AttachesValid segtab attaches i t h on r v = record {
  slots = v.slots;
  clear = v.clear;
  each = λ k a. Recount-AttachValid segtab i t (attach_at attaches k) h on r (v.each k a);
  once = v.once;
}

-- No attachment in use is to a segment that the search does not find.
not_attached :
    (attaches : List ShmAttach) (shmid : ℕ)
    → find_index (attached_to shmid) attaches ≡ none
    → (i : ℕ) → (attach_at attaches i).active ≡ true
    → (attach_at attaches i).shmid ≢ shmid
not_attached attaches shmid e i a k = elim (dec_lt i (length attaches)) [
  | yes h ↦
      clash (attach_at attaches i) a k
        (find_index-none (attached_to shmid) empty_attach attaches e i h)
  | no h ↦ cc (
      sym (ap (λ (x : ShmAttach). x.active) (get_or_outside attaches i empty_attach (omega arith)))
      ∙ a)
]
  where
    clash : (x : ShmAttach) → x.active ≡ true → x.shmid ≡ shmid → attached_to shmid x ≡ false → ⊥
    clash x a k f = ground arith

added-AttachesValid :
    (segtab : List ShmSegment) (attaches : List ShmAttach) (slot : ℕ) (a : ShmAttach)
    → slot < length attaches
    → a.active ≡ true
    → AttachValid segtab a
    → find_index (attached_to a.shmid) attaches ≡ none
    → AttachesValid segtab attaches
    → AttachesValid segtab (set attaches slot a)
added-AttachesValid segtab attaches slot a h on va e v = record {
  slots = length-set attaches slot a ∙ v.slots;
  clear =
      at_index (λ _ x. x.active ≡ false → x ≡ empty_attach) attaches slot a empty_attach h
        (λ off. cc (sym on ∙ off)) (λ k _ off. v.clear k off);
  each =
      at_index (λ _ x. x.active ≡ true → AttachValid segtab x) attaches slot a empty_attach h
        (λ _. va) (λ k _ b. v.each k b);
  once =
      at_pair (λ k x l y. x.active ≡ true → y.active ≡ true → x.shmid ≡ y.shmid → k ≡ l) attaches
        slot a empty_attach h (λ _ _ _. refl)
        (λ l _ _ b same. absurd (not_attached attaches a.shmid e l b (sym same)))
        (λ k _ b _ same. absurd (not_attached attaches a.shmid e k b same)) v.once;
}

removed-AttachesValid :
    (segtab : List ShmSegment) (attaches : List ShmAttach) (slot : ℕ)
    → slot < length attaches
    → AttachesValid segtab attaches
    → AttachesValid segtab (set attaches slot empty_attach)
removed-AttachesValid segtab attaches slot h v = record {
  slots = length-set attaches slot empty_attach ∙ v.slots;
  clear =
      at_index (λ _ x. x.active ≡ false → x ≡ empty_attach) attaches slot empty_attach empty_attach
        h (λ _. refl) (λ k _ off. v.clear k off);
  each =
      at_index (λ _ x. x.active ≡ true → AttachValid segtab x) attaches slot empty_attach
        empty_attach h (λ b. cc) (λ k _ b. v.each k b);
  once =
      at_pair (λ k x l y. x.active ≡ true → y.active ≡ true → x.shmid ≡ y.shmid → k ≡ l) attaches
        slot empty_attach empty_attach h (λ _ _ _. refl) (λ l _ b _ _. cc) (λ k _ _ b _. cc) v.once;
}

module _ (paging : Paging) where
  open paging use {Memory}

  -- The invariants of the segments and of the caller's attachments.
  abbrev pub StateValid : State Memory → Type 0
  StateValid s = SegtabValid s.segtab × AttachesValid s.segtab s.attaches

  attach-Valid :
      (s : State Memory) (shmid cr3 : ℕ) {out : ℤ × State Memory}
      → Attaches paging s shmid cr3 out
      → StateValid s
      → StateValid out.1
  attach-Valid s shmid cr3 (no_segment _) v = v
  attach-Valid s shmid cr3 (already _ _) v = v
  attach-Valid s shmid cr3 (no_room _) v = v
  attach-Valid s shmid cr3 unmapped v = v
  attach-Valid s shmid cr3 (mapped slot lt on fresh free) (sv, av) =
      let f = find_index-some inactive_attach empty_attach s.attaches free in
      let r = retained-Recount (segment_at s.segtab shmid) in
      let inside : shmid < length s.segtab = omega (arith, sv.slots) in
      (
        Recount-SegtabValid s.segtab shmid _ inside on r sv,
        Recount-AttachesValid s.segtab _ shmid _ inside on r (
            added-AttachesValid s.segtab s.attaches slot _ f.0 refl
              (record { known = lt; placed = refl; live = on }) fresh av),
      )

  -- `shmat` keeps the invariants, on every branch.
  pub shmat-Valid :
      (s : State Memory) (shmid cr3 : ℕ) → StateValid s → StateValid (shmat paging s shmid cr3).1
  shmat-Valid s shmid cr3 v = attach-Valid s shmid cr3 (shmat-Attaches paging s shmid cr3) v

  -- `shmdt` keeps the invariants, on every branch.
  pub shmdt-Valid :
      (s : State Memory) (addr : ℕ) → StateValid s → StateValid (shmdt paging s addr).1
  unfolding shmdt
  shmdt-Valid s addr (sv, av) = elim (Option-cases (find_index (attached_at addr) s.attaches)) [
    | inl e ↦ simp (e, shmdt) (sv, av)
    | inr (slot, e) ↦
        let f = find_index-some (attached_at addr) empty_attach s.attaches e in
        let shmid = (attach_at s.attaches slot).shmid in
        let removed = removed-AttachesValid s.segtab s.attaches slot f.0 av in
        elim (Bool-cases (ltb shmid max_segments && (segment_at s.segtab shmid).active)) [
          | inr out ↦ simp (e, out, shmdt) (sv, removed)
          | inl live ↦
              let r = dropped-Recount (segment_at s.segtab shmid) in
              let inside : shmid < length s.segtab = ground arith in
              let on : (segment_at s.segtab shmid).active ≡ true = ground arith in
              simp (e, live, shmdt)
                (
                  Recount-SegtabValid s.segtab shmid (dropped (segment_at s.segtab shmid)) inside on
                      r sv,
                  Recount-AttachesValid s.segtab (set s.attaches slot empty_attach) shmid
                      (dropped (segment_at s.segtab shmid)) inside on r removed,
                )
        ]
  ]
