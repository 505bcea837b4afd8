-- ===== src/Fs/Fat/Chain.antt =====
-- The release of a chain of clusters, on a disk where no sector fails.
use oxide_os.Prelude.{
  ℕ, zero, suc, ◌+◌, ◌*◌, ◌%◌, ◌^◌, ◌<◌, ◌≤◌, ◌≡◌, ◌⊎◌, inl, inr, refl, sym, ap, ◌∙◌, subst, true,
  false, ◌&&◌, ◌||◌, ltb, leb, ◌==◌, if◌then◌else◌, Option, none, some, Option-cases, List, [], ◌∷◌,
  length, arith,
}
use oxide_os.Fs.Ata.{Ata, IsDisk, NeverFails}
use oxide_os.Fs.Fat.{Bpb, fat_lba, write_copies, fat_write_entry, fat_next, free_cluster_chain}
use oxide_os.Fs.Fat.Table.{IsFat, InFat, entry, Written, fat_write_entry-Written}

-- A cluster of the data area with an entry in the table.
abbrev pub IsUsable : Bpb → ℕ → Type 0
IsUsable bpb c = (2 ≤ c) × (c < 0xFFF8) × InFat bpb c

abbrev pub In : ℕ → List ℕ → Type 0
In x [] = ⊥
In x (c ∷ cs) = (x ≡ c) ⊎ In x cs

abbrev pub IsDistinct : List ℕ → Type 0
IsDistinct [] = Unit
IsDistinct (c ∷ cs) = ¬ In c cs × IsDistinct cs

next_of : Option ℕ → ℕ
next_of none = 0
next_of (some v) = if leb 0xFFF8 v then 0xFFFF else v

module _ (ata : Ata) (laws : IsDisk ata) (bpb : Bpb) (geometry : IsFat bpb) where
  open ata use {Disk, read_sector}

  -- Each entry leads to the next cluster, the last one ends the chain.
  abbrev pub IsChain : Disk → List ℕ → Type 0
  IsChain d [] = ⊥
  IsChain d (c ∷ []) = IsUsable bpb c × (fat_next ata bpb c d ≡ 0xFFFF)
  IsChain d (c ∷ (n ∷ cs)) = IsUsable bpb c × (fat_next ata bpb c d ≡ n) × IsChain d (n ∷ cs)

  fat_next-next_of :
      (c : ℕ) (d : Disk) → fat_next ata bpb c d ≡ next_of (entry ata laws bpb geometry d c)
  unfolding fat_next next_of
  fat_next-next_of c d = elim (Option-cases (read_sector d (fat_lba bpb c))) [
    | inl e ↦ simp (fat_next, e) refl
    | inr (buf, e) ↦ simp (fat_next, e) refl
  ]

  IsChain-kept :
      (d d1 : Disk) (cs : List ℕ)
      → ((x : ℕ)
          → InFat bpb x
          → In x cs
          → entry ata laws bpb geometry d1 x ≡ entry ata laws bpb geometry d x)
      → IsChain d cs
      → IsChain d1 cs
  IsChain-kept d d1 [] same h = h
  IsChain-kept d d1 (c ∷ []) same (u, e) = (
    u,
    fat_next-next_of c d1 ∙ ap next_of (same c u.2 (inl refl)) ∙ sym (fat_next-next_of c d) ∙ e,
  )
  IsChain-kept d d1 (c ∷ (n ∷ cs)) same (u, e, h) = (
    u,
    fat_next-next_of c d1 ∙ ap next_of (same c u.2 (inl refl)) ∙ sym (fat_next-next_of c d) ∙ e,
    IsChain-kept d d1 (n ∷ cs) (λ x i m. same x i (inr m)) h,
  )

  head-IsUsable : (d : Disk) (c : ℕ) (cs : List ℕ) → IsChain d (c ∷ cs) → IsUsable bpb c
  head-IsUsable d c [] h = h.0
  head-IsUsable d c (n ∷ cs) h = h.0

  -- The clusters of the list are free and no other entry has changed.
  pub record Freed (d : Disk) (cs : List ℕ) (d1 : Disk) : Type 0 where
    pub free : (x : ℕ) → In x cs → entry ata laws bpb geometry d1 x ≡ some 0
    pub others :
        (x : ℕ)
        → InFat bpb x
        → ¬ In x cs
        → entry ata laws bpb geometry d1 x ≡ entry ata laws bpb geometry d x

  module _ (works : NeverFails ata) where
    write_copies-done :
        (c value copy n : ℕ) (d : Disk) → (write_copies ata bpb c value copy n d).0 ≡ true
    unfolding write_copies
    write_copies-done c value copy zero d = refl
    write_copies-done c value copy (suc n) d =
        let lba = (fat_lba bpb c + copy * bpb.fat_size_16) % 2 ^ 32 in
        let (buf, e) = works.reads d lba in
        simp (write_copies, e, works.writes) (write_copies-done c value (suc copy) n _)

    zeroed :
        (c : ℕ) (d : Disk)
        → InFat bpb c
        → Written ata laws bpb geometry c 0 d (fat_write_entry ata bpb c 0 d).1
    unfolding fat_write_entry
    zeroed c d i =
        fat_write_entry-Written ata laws bpb geometry c 0 d i
          (write_copies-done c 0 0 bpb.fat_count d)

    -- The chain is released in full and nothing else, with a round of the loop for each cluster.
    pub free_cluster_chain-Freed :
        (fuel c : ℕ) (cs : List ℕ) (d : Disk)
        → IsChain d (c ∷ cs)
        → IsDistinct (c ∷ cs)
        → length (c ∷ cs) ≤ fuel
        → Freed d (c ∷ cs) (free_cluster_chain ata bpb fuel c d)
    unfolding free_cluster_chain
    free_cluster_chain-Freed zero c cs d h ne f = absurd (omega arith)
    free_cluster_chain-Freed (suc fuel) c [] d (u, e) ne f =
        let w = zeroed c d u.2 in
        let inside : (leb 2 c && ltb c 0xFFF8) ≡ true = ground (arith, u.0, u.1) in
        simp (free_cluster_chain, inside, e)
          (record {
            free = λ x m. elim m [ inl s ↦ rw s w.value_set | inr n ↦ absurd n ];
            others = λ x i m. w.others x i (λ s. m (inl s));
          })
    free_cluster_chain-Freed (suc fuel) c (n ∷ cs) d (u, e, h) ne f =
        let w = zeroed c d u.2 in
        let d1 = (fat_write_entry ata bpb c 0 d).1 in
        let inside : (leb 2 c && ltb c 0xFFF8) ≡ true = ground (arith, u.0, u.1) in
        let v = head-IsUsable d n cs h in
        let goes_on : (n == 0 || n == 0xFFFF) ≡ false = ground (arith, v.0, v.1) in
        let linked =
          IsChain-kept d d1 (n ∷ cs)
            (λ x i m. w.others x i (λ s. ne.0 (subst (λ y. In y (n ∷ cs)) s m))) h in
        let rest = free_cluster_chain-Freed fuel n cs d1 linked ne.1 (omega arith) in
        simp (free_cluster_chain, inside, e, goes_on)
          (record {
            free = λ x m. elim m [
              | inl s ↦ rw s (rest.others c u.2 ne.0 ∙ w.value_set)
              | inr m ↦ rest.free x m
            ];
            others = λ x i m. rest.others x i (λ k. m (inr k)) ∙ w.others x i (λ s. m (inl s));
          })
