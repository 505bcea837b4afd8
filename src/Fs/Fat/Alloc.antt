-- ===== src/Fs/Fat/Alloc.antt =====
-- The allocation of a cluster: the search of the table and the mark.
use oxide_os.Prelude.{
  ℕ, zero, suc, ◌+◌, ◌*◌, ◌/◌, ◌%◌, ◌^◌, ◌<◌, ◌≤◌, ◌≡◌, ◌≢◌, ◌↔◌, inl, inr, sym, ap, ◌∙◌, subst,
  false, ◌&&◌, Option, none, some, Option-cases, Bool-cases, ◌==◌, ltb, arith, dec_lt,
}
use oxide_os.Fs.Mbr.{Sector}
use oxide_os.Fs.Ata.{Ata, IsDisk}
use oxide_os.Fs.Fat.{
  Bpb, byte_in_sector, le_half, value_at, free_in, fat_write_entry, find_free, fat_alloc_cluster,
}
use oxide_os.Fs.Fat.Table.{IsFat, InFat, entry_of, entry, Written, fat_write_entry-Written}

-- The first number from `lo` up to `hi` that has the property, none if there is none.
abbrev pub First : (ℕ → Type 0) → ℕ → ℕ → Option ℕ → Type 0
First P lo hi none = (c : ℕ) → lo ≤ c → c < hi → ¬ P c
First P lo hi (some c) =
    (lo ≤ c) × (c < hi) × P c × ((other : ℕ) → lo ≤ other → other < c → ¬ P other)

module _ (P : ℕ → Type 0) where
  First-widen : (lo mid hi c : ℕ) → mid ≤ hi → First P lo mid (some c) → First P lo hi (some c)
  First-widen lo mid hi c h (a, b, p, before) = (a, omega arith, p, before)

  First-after :
      (lo mid hi : ℕ) (o : Option ℕ)
      → lo ≤ mid
      → First P lo mid none
      → First P mid hi o
      → First P lo hi o
  First-after lo mid hi none h before after = λ c a b. elim (dec_lt c mid) [
    | yes lt ↦ before c a lt
    | no ge ↦ after c (omega (arith, ge)) b
  ]
  First-after lo mid hi (some c) h before (a, b, p, rest) = (
    omega arith,
    b,
    p,
    λ other x y. elim (dec_lt other mid) [
      | yes lt ↦ before other x lt
      | no ge ↦ rest other (omega (arith, ge)) y
    ],
  )

First-map :
    (P Q : ℕ → Type 0) (lo hi : ℕ) (o : Option ℕ)
    → ((c : ℕ) → lo ≤ c → c < hi → P c ↔ Q c)
    → First P lo hi o
    → First Q lo hi o
First-map P Q lo hi none same all = λ c a b q. all c a b ((same c a b).1 q)
First-map P Q lo hi (some c) same (a, b, p, before) =
    (a, b, (same c a b).0 p, λ other x y q. before other x y ((same other x (omega arith)).1 q))

-- A cluster whose entry in the sector is free.
abbrev FreeIn : Sector → ℕ → Type 0
FreeIn buf c = (2 ≤ c) × (value_at c buf ≡ 0)

module _ (buf : Sector) (s : ℕ) (small : s < 256) where
  -- The value of entry `i` of the sector.
  value_here : (i c : ℕ) → i < 256 → c ≡ s * 256 + i → value_at c buf ≡ le_half buf (i * 2)
  value_here i c h e =
      let place : byte_in_sector c ≡ i * 2 = omega (arith, e) in ap (le_half buf) place

  none_here :
      (i : ℕ)
      → i < 256
      → ((2 ≤ s * 256 + i) → le_half buf (i * 2) ≢ 0)
      → First (FreeIn buf) (s * 256 + i) (s * 256 + suc i) none
  none_here i h not_free c a b (two, z) =
      let here : c ≡ s * 256 + i = omega arith in
      not_free (omega arith) (sym (value_here i c h here) ∙ z)

  free_in-First :
      (i n hi : ℕ)
      → i + n ≤ 256
      → hi ≡ s * 256 + i + n
      → First (FreeIn buf) (s * 256 + i) hi (free_in buf s i n)
  unfolding free_in
  free_in-First i zero hi h e = λ c a b. absurd (omega arith)
  free_in-First i (suc n) hi h e =
      let rest = free_in-First (suc i) n hi (omega arith) (omega arith) in
      let after =
        First-after (FreeIn buf) (s * 256 + i) (s * 256 + suc i) hi (free_in buf s (suc i) n)
          (omega arith) in
      let number : (s * 256 + i) % 2 ^ 16 ≡ s * 256 + i = omega arith in
      elim (Bool-cases (ltb ((s * 256 + i) % 2 ^ 16) 2)) [
        | inl t ↦
            simp (free_in, t)
              (after (none_here i (omega arith) (λ two. absurd (ground (arith, t, number, two))))
                rest)
        | inr f ↦ elim (Bool-cases (buf (i * 2) == 0 && buf (i * 2 + 1) == 0)) [
          | inl z ↦
              simp (free_in, f, z)
                (
                  omega arith,
                  omega arith,
                  (
                    ground (arith, f),
                    value_here i ((s * 256 + i) % 2 ^ 16) (omega arith) number ∙ ground (arith, z),
                  ),
                  λ other a b p. omega arith,
                )
          | inr nz ↦
              simp (free_in, f, nz)
                (after (none_here i (omega arith) (λ two z. ground (arith, nz, z))) rest)
        ]
      ]

module _ (ata : Ata) (laws : IsDisk ata) (bpb : Bpb) (geometry : IsFat bpb) where
  open ata use {Disk, read_sector}

  -- A cluster that can hold data and whose entry is free.
  abbrev pub FreeAt : Disk → ℕ → Type 0
  FreeAt d c = (2 ≤ c) × (entry ata laws bpb geometry d c ≡ some 0)

  sector_lba : Disk → ℕ → Option Sector
  sector_lba d s = read_sector d ((bpb.fat_start_lba + s) % 2 ^ 32)

  at_sector :
      (d : Disk) (s c : ℕ)
      → s * 256 ≤ c
      → c < suc s * 256
      → entry ata laws bpb geometry d c ≡ entry_of c (sector_lba d s)
  unfolding sector_lba
  at_sector d s c a b =
      let here : c * 2 / 512 ≡ s = omega arith in
      ap (λ x. entry_of c (read_sector d ((bpb.fat_start_lba + x) % 2 ^ 32))) here

  unreadable :
      (d : Disk) (s : ℕ) → sector_lba d s ≡ none → First (FreeAt d) (s * 256) (suc s * 256) none
  unreadable d s e c a b (_, z) =
      let w : ◌≡◌ {A = Option ℕ} none (some 0) =
        sym (at_sector d s c a b ∙ ap (entry_of c) e) ∙ z in
      let bad : ⊥ = cc in bad

  readable :
      (d : Disk) (s : ℕ) (buf : Sector) (o : Option ℕ)
      → sector_lba d s ≡ some buf
      → First (FreeIn buf) (s * 256) (suc s * 256) o
      → First (FreeAt d) (s * 256) (suc s * 256) o
  readable d s buf o e = First-map (FreeIn buf) (FreeAt d) (s * 256) (suc s * 256) o (λ c a b.
      let here = at_sector d s c a b ∙ ap (entry_of c) e in
      (λ (two, z). (two, here ∙ ap some z), λ (two, z). (two, cc)))

  find_free-First :
      (d : Disk) (s n : ℕ)
      → s + n ≤ bpb.fat_size_16
      → First (FreeAt d) (s * 256) ((s + n) * 256) (find_free ata bpb d s n)
  unfolding find_free sector_lba
  find_free-First d s zero h = λ c a b. absurd (omega arith)
  find_free-First d s (suc n) h =
      let up : suc s + n ≡ s + suc n = omega arith in
      let rest =
        subst (λ k. First (FreeAt d) (suc s * 256) (k * 256) (find_free ata bpb d (suc s) n)) up
          (find_free-First d (suc s) n (omega arith)) in
      let after = λ (b : First (FreeAt d) (s * 256) (suc s * 256) none).
        First-after (FreeAt d) (s * 256) (suc s * 256) ((s + suc n) * 256)
          (find_free ata bpb d (suc s) n) (omega arith) b rest in
      elim (Option-cases (sector_lba d s)) [
        | inl e ↦ simp (find_free, e) (after (unreadable d s e))
        | inr (buf, e) ↦
            let base : s * 256 + 0 ≡ s * 256 = omega arith in
            let inside =
              subst (λ x. First (FreeIn buf) x (suc s * 256) (free_in buf s 0 256)) base
                (free_in-First buf s (omega (arith, geometry.size)) 0 256 (suc s * 256)
                  (omega arith) (omega arith)) in
            elim (Option-cases (free_in buf s 0 256)) [
              | inl f ↦ simp (find_free, e, f) (after (readable d s buf none e (simp f at inside)))
              | inr (c, f) ↦
                  simp (find_free, e, f)
                    (First-widen (FreeAt d) (s * 256) (suc s * 256) ((s + suc n) * 256) c
                      (omega arith) (readable d s buf (some c) e (simp f at inside)))
            ]
      ]

  -- What an allocation gives: no cluster is free and nothing changes; or the first free cluster,
  -- whose entry then marks the end of a chain, with every other entry as it was; or 0 where that
  -- entry cannot be written.
  pub data Allocates (d : Disk) : ℕ × Disk → Type 0 where
    full :
        ((c : ℕ) → 2 ≤ c → InFat bpb c → entry ata laws bpb geometry d c ≢ some 0)
        → Allocates d (0, d)
    taken :
        (c : ℕ) (d1 : Disk)
        → InFat bpb c
        → FreeAt d c
        → ((other : ℕ) → other < c → ¬ FreeAt d other)
        → Written ata laws bpb geometry c 0xFFFF d d1
        → Allocates d (c, d1)
    unwritten :
        (c : ℕ) (d1 : Disk)
        → FreeAt d c
        → fat_write_entry ata bpb c 0xFFFF d ≡ (false, d1)
        → Allocates d (0, d1)

  -- On a volume of at most 2^16 clusters, an allocation takes the first free cluster.
  pub fat_alloc_cluster-Allocates : (d : Disk) → Allocates d (fat_alloc_cluster ata bpb d)
  unfolding fat_alloc_cluster
  fat_alloc_cluster-Allocates d =
      let found = find_free-First d 0 bpb.fat_size_16 (omega arith) in
      elim (Option-cases (find_free ata bpb d 0 bpb.fat_size_16)) [
        | inl e ↦
            simp (fat_alloc_cluster, e)
              (full (λ c two i z. (simp e at found) c (omega arith) (omega (arith, i)) (two, z)))
        | inr (c, e) ↦
            let (lo, hi, free, before) = simp e at found in
            let w = fat_write_entry ata bpb c 0xFFFF d in
            elim (Bool-cases w.0) [
              | inl t ↦
                  simp (fat_alloc_cluster, e, t)
                    (taken c w.1 (omega arith) free (λ other h. before other (omega arith) h)
                      (fat_write_entry-Written ata laws bpb geometry c 0xFFFF d (omega arith) t))
              | inr f ↦ simp (fat_alloc_cluster, e, f) (unwritten c w.1 free (ap (λ b. (b, w.1)) f))
            ]
      ]
