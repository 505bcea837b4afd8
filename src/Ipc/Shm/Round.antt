-- ===== src/Ipc/Shm/Round.antt =====
-- Attaching a segment and detaching it again.
use oxide_os.Prelude.{
  ℕ, ◌+◌, ◌^◌, ◌≡◌, ◌<◌, sym, ap, ap₂, subst, ◌∙◌, Bool, true, false, not, ◌&&◌, ◌||◌, none, some,
  List, set, set-set, set-get_or, get_or-set_self, inl, inr, ltb, leb, if◌then◌else◌, ℤ, pos, neg,
  Bool-cases, Option-cases, find_index, find_index-some, find_index-none, find_index-set_new,
  find_index_of_none, arith,
}
use oxide_os.Ipc.Shm.{
  ShmSegment, ShmAttach, Paging, State, segment_at, attach_at, empty_segment, empty_attach,
  max_segments, inactive_attach, attached_to, attached_at, vaddr_of, retained, dropped, shmat,
  shmdt,
}
use oxide_os.Ipc.Shm.Valid.{SegtabValid, AttachesValid}

dropped-retained : (s : ShmSegment) → s.refcount + 1 < 2 ^ 32 → dropped (retained s) ≡ s
unfolding dropped retained
dropped-retained s h = ap (λ n. record s { refcount = n }) (omega arith)

both_pass {ℓ} :
    {A : Type ℓ} (b c : Bool) (x y : A) → b ≡ true → c ≡ true → (if b && c then x else y) ≡ x
both_pass b c x y e f = rw (e, f)

-- No attachment stands at the address of a segment that is not attached.
absent_address :
    (segtab : List ShmSegment) (attaches : List ShmAttach) (shmid : ℕ)
    → AttachesValid segtab attaches
    → find_index (attached_to shmid) attaches ≡ none
    → find_index (attached_at (vaddr_of shmid)) attaches ≡ none
absent_address segtab attaches shmid v e =
    find_index_of_none (attached_at (vaddr_of shmid)) empty_attach attaches λ k h.
      elsewhere (attach_at attaches k)
        (find_index-none (attached_to shmid) empty_attach attaches e k h) (λ a. (v.each k a).placed)
  where
    elsewhere :
        (a : ShmAttach)
        → attached_to shmid a ≡ false
        → (a.active ≡ true → a.vaddr ≡ vaddr_of a.shmid)
        → attached_at (vaddr_of shmid) a ≡ false
    elsewhere a f placed = elim (Bool-cases a.active) [
      | inl on ↦ ground (arith, placed on)
      | inr off ↦ ground arith
    ]

module _ (paging : Paging) where
  open paging use {Memory, map_phys_pages_in}

  -- The outcomes of `shmat`.
  pub data Attaches (s : State Memory) (shmid cr3 : ℕ) : ℤ × State Memory → Type 0 where
    no_segment :
        (leb max_segments shmid || not (segment_at s.segtab shmid).active) ≡ true
        → Attaches s shmid cr3 (neg 22, s)
    already :
        (i : ℕ)
        → find_index (attached_to shmid) s.attaches ≡ some i
        → Attaches s shmid cr3 (pos (attach_at s.attaches i).vaddr, s)
    no_room : find_index inactive_attach s.attaches ≡ none → Attaches s shmid cr3 (neg 24, s)
    unmapped : {m : Memory} → Attaches s shmid cr3 (neg 12, record s { memory = m })
    mapped :
        (slot : ℕ) {m : Memory}
        → shmid < max_segments
        → (segment_at s.segtab shmid).active ≡ true
        → find_index (attached_to shmid) s.attaches ≡ none
        → find_index inactive_attach s.attaches ≡ some slot
        → Attaches s shmid cr3 (
          pos (vaddr_of shmid),
          record {
            segtab = set s.segtab shmid (retained (segment_at s.segtab shmid));
            attaches =
                set s.attaches slot
                  (record { shmid = shmid; vaddr = vaddr_of shmid; active = true });
            memory = m;
          },
        )

  pub shmat-Attaches :
      (s : State Memory) (shmid cr3 : ℕ) → Attaches s shmid cr3 (shmat paging s shmid cr3)
  unfolding shmat
  shmat-Attaches s shmid cr3 =
      let segment = segment_at s.segtab shmid in
      elim (Bool-cases (leb max_segments shmid || not segment.active)) [
        | inl bad ↦ simp (bad, shmat) (no_segment bad)
        | inr good ↦ elim (Option-cases (find_index (attached_to shmid) s.attaches)) [
          | inr (i, e) ↦ simp (good, e, shmat) (already i e)
          | inl e ↦ elim (Option-cases (find_index inactive_attach s.attaches)) [
            | inl full ↦ simp (good, e, full, shmat) (no_room full)
            | inr (slot, free) ↦
                elim (Bool-cases
                  (map_phys_pages_in s.memory cr3 (vaddr_of shmid) segment.phys_base segment.pages
                    true).0) [
                      | inr failed ↦ simp (good, e, free, failed, shmat) unmapped
                      | inl done ↦
                          simp (good, e, free, done, shmat)
                            (mapped slot (ground arith) (ground arith) e free)
                    ]
          ]
        ]
      ]

  detach :
      (s : State Memory) (shmid cr3 v : ℕ) {out : ℤ × State Memory}
      → Attaches s shmid cr3 out
      → SegtabValid s.segtab
      → AttachesValid s.segtab s.attaches
      → (segment_at s.segtab shmid).refcount + 1 < 2 ^ 32
      → find_index (attached_to shmid) s.attaches ≡ none
      → out.0 ≡ pos v
      → shmdt paging out.1 v ≡ (pos 0, record s { memory = out.1.memory })
  unfolding shmdt
  detach s shmid cr3 v (no_segment _) sv av few fresh e = cc
  detach s shmid cr3 v (already i f) sv av few fresh e = cc
  detach s shmid cr3 v (no_room _) sv av few fresh e = cc
  detach s shmid cr3 v unmapped sv av few fresh e = cc
  detach s shmid cr3 v (mapped slot {m} lt on _ free) sv av few fresh e =
      let f = find_index-some inactive_attach empty_attach s.attaches free in
      let here =
        subst (λ a. find_index (attached_at a) (set s.attaches slot new) ≡ some slot) addr
          (find_index-set_new (attached_at (vaddr_of shmid)) empty_attach s.attaches slot new f.0
            (absent_address s.segtab s.attaches shmid av fresh) (ground arith)) in
      simp
        (
          here,
          shmdt,
          get_or-set_self s.attaches slot new empty_attach f.0,
          get_or-set_self s.segtab shmid _ empty_segment (omega arith),
        )
        (ap₂ (λ a b. (pos 0, record { segtab = a; attaches = b; memory = m })) seg_same
          (set-set s.attaches slot new empty_attach
            ∙ ap (set s.attaches slot) (sym (av.clear slot (ground arith)))
            ∙ set-get_or s.attaches slot empty_attach))
    where
      new : ShmAttach
      new = record { shmid = shmid; vaddr = vaddr_of shmid; active = true }

      addr : vaddr_of shmid ≡ v
      addr = cc

      segment : ShmSegment
      segment = segment_at s.segtab shmid

      in_range : ltb shmid max_segments ≡ true
      in_range = ground arith

      kept : (retained segment).active ≡ true
      kept = unfold retained in on

      seg_same :
          (if ltb shmid max_segments && (retained segment).active
            then set (set s.segtab shmid (retained segment)) shmid (dropped (retained segment))
            else set s.segtab shmid (retained segment))
          ≡ s.segtab
      seg_same =
          both_pass (ltb shmid max_segments) (retained segment).active _ _ in_range kept
          ∙ set-set s.segtab shmid (retained segment) (dropped (retained segment))
          ∙ ap (set s.segtab shmid) (dropped-retained segment few)
          ∙ set-get_or s.segtab shmid empty_segment

  -- Detaching at the address that `shmat` returned for a segment which was not attached gives back
  -- the attachments and the segments as they were, the reference count included, unless that count
  -- was about to wrap.
  pub shmdt-shmat :
      (s : State Memory) (shmid cr3 v : ℕ)
      → SegtabValid s.segtab
      → AttachesValid s.segtab s.attaches
      → (segment_at s.segtab shmid).refcount + 1 < 2 ^ 32
      → find_index (attached_to shmid) s.attaches ≡ none
      → (shmat paging s shmid cr3).0 ≡ pos v
      → let s' = (shmat paging s shmid cr3).1 in
        shmdt paging s' v ≡ (pos 0, record s { memory = s'.memory })
  shmdt-shmat s shmid cr3 v sv av few fresh e =
      detach s shmid cr3 v (shmat-Attaches s shmid cr3) sv av few fresh e
