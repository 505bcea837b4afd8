-- ===== src/Fs/Fat/File/Read.antt =====
-- What `read_fd` reads: the bytes of the chain from the position on.
use oxide_os.Prelude.{
  ℕ, zero, suc, ◌+◌, ◌-◌, ◌%◌, ◌^◌, ◌<◌, ◌≤◌, ◌≡◌, ◌≢◌, refl, sym, ap, ◌∙◌, subst, min, Bool, true,
  false, ◌||◌, ◌==◌, ltb, if◌then◌else◌, List, [], ◌∷◌, ◌++◌, append-nil, append_assoc, length,
  take, drop, take-nil, arith, ==_iff, Bool-cases, inl, inr, ℕ_discrete, ℤ, pos,
}
use oxide_os.Fs.Mbr.{Sector}
use oxide_os.Fs.Ata.{Ata, NeverFails}
use oxide_os.Fs.Fat.{Bpb, cluster_to_lba, fat_next}
use oxide_os.Fs.Fat.File.Bytes.{take-sector}
use oxide_os.Fs.Fat.File.{
  FatFd, FatFs, is_fat_fd, slot_of, fd_at, bytes_from, position_lba, advanced, read_loop, read_fd,
}

module _ (ata : Ata) (works : NeverFails ata) (bpb : Bpb) where
  open ata use {Disk, read_sector}

  abbrev sector : Disk → ℕ → Sector
  sector d lba = (works.reads d lba).0

  -- The bytes of `n` sectors of a cluster from sector `k` on.
  unfoldable pub cluster_bytes : Disk → ℕ → ℕ → ℕ → List ℕ
  cluster_bytes d c k zero = []
  cluster_bytes d c k (suc n) =
      bytes_from (sector d ((cluster_to_lba bpb c + k) % 2 ^ 32)) 0 512
      ++ cluster_bytes d c (suc k) n

  unfoldable pub chain_bytes : Disk → List ℕ → List ℕ
  chain_bytes d [] = []
  chain_bytes d (c ∷ cs) = cluster_bytes d c 0 bpb.sectors_per_cluster ++ chain_bytes d cs

  -- The clusters after one, as the table links them.
  abbrev pub Follows : Disk → ℕ → List ℕ → Type 0
  Follows d c [] = fat_next ata bpb c d ≡ 0xFFFF
  Follows d c (n ∷ cs) = (fat_next ata bpb c d ≡ n) × (n ≢ 0) × (n ≢ 0xFFFF) × Follows d n cs

  -- The bytes from the position on, with the clusters that follow.
  unfoldable pub ahead : Disk → FatFd → List ℕ → List ℕ
  ahead d slot more = drop (slot.file_offset % 512) (
      cluster_bytes d slot.cur_cluster slot.cur_sector (bpb.sectors_per_cluster - slot.cur_sector)
      ++ chain_bytes d more)

  -- The bytes after the sector that the position is in.
  later : Disk → FatFd → List ℕ → List ℕ
  later d slot more =
      cluster_bytes d slot.cur_cluster (suc slot.cur_sector)
        (bpb.sectors_per_cluster - suc slot.cur_sector)
      ++ chain_bytes d more

  take-ahead :
      (d : Disk) (slot : FatFd) (more : List ℕ) (want : ℕ)
      → slot.cur_sector < bpb.sectors_per_cluster
      → take want (ahead d slot more)
        ≡ bytes_from
            (sector d (position_lba ata bpb slot))
            (slot.file_offset % 512)
            (min (512 - slot.file_offset % 512) want)
          ++ take (want - (512 - slot.file_offset % 512)) (later d slot more)
  unfolding ahead later cluster_bytes
  take-ahead d slot more want h =
      let left : bpb.sectors_per_cluster - slot.cur_sector
          ≡ suc (bpb.sectors_per_cluster - suc slot.cur_sector) =
        omega arith in
      let here = sector d (position_lba ata bpb slot) in
      let off = slot.file_offset % 512 in
      ap
        (λ n.
          take want
            (drop off (cluster_bytes d slot.cur_cluster slot.cur_sector n ++ chain_bytes d more)))
        left
      ∙ ap (λ x. take want (drop off x)) (append_assoc (bytes_from here 0 512) _ _)
      ∙ take-sector here off want (later d slot more) (omega arith)

  read_loop_none : (fuel : ℕ) (slot : FatFd) (d : Disk) → (read_loop ata fuel bpb 0 slot d).0 ≡ []
  unfolding read_loop
  read_loop_none zero slot d = refl
  read_loop_none (suc fuel) slot d = refl

  -- Where the position goes: the loop may stop as the chain has ended, or goes on with what is left.
  data Goes (d : Disk) (slot : FatFd) (more : List ℕ) : Bool × FatFd → Type 0 where
    ends : (last : FatFd) → later d slot more ≡ [] → Goes d slot more (false, last)
    on :
        (slot1 : FatFd) (more1 : List ℕ)
        → slot1.cur_sector < bpb.sectors_per_cluster
        → Follows d slot1.cur_cluster more1
        → ahead d slot1 more1 ≡ later d slot more
        → Goes d slot more (true, slot1)

  later_full :
      (d : Disk) (slot : FatFd) (more : List ℕ)
      → bpb.sectors_per_cluster - suc slot.cur_sector ≡ 0
      → later d slot more ≡ chain_bytes d more
  unfolding later cluster_bytes
  later_full d slot more full =
      ap (λ n. cluster_bytes d slot.cur_cluster (suc slot.cur_sector) n ++ chain_bytes d more) full

  at_start :
      (d : Disk) (slot : FatFd) (more : List ℕ)
      → slot.file_offset % 512 ≡ 0
      → ahead d slot more
        ≡ cluster_bytes d slot.cur_cluster slot.cur_sector
            (bpb.sectors_per_cluster - slot.cur_sector)
          ++ chain_bytes d more
  unfolding ahead
  at_start d slot more e =
      ap
        (λ n. drop n (
          cluster_bytes d slot.cur_cluster slot.cur_sector
            (bpb.sectors_per_cluster - slot.cur_sector)
          ++ chain_bytes d more))
        e

  -- At the end of a sector.
  advanced-Goes :
      (d : Disk) (slot : FatFd) (more : List ℕ) (n : ℕ)
      → bpb.sectors_per_cluster < 2 ^ 8
      → slot.cur_sector < bpb.sectors_per_cluster
      → Follows d slot.cur_cluster more
      → (slot.file_offset + n) % 2 ^ 32 % 512 ≡ 0
      → Goes d slot more (advanced ata bpb slot n d)
  unfolding advanced later chain_bytes
  advanced-Goes d slot more n u h g edge =
      let at_edge : ((slot.file_offset + n) % 2 ^ 32 % 512 == 0) ≡ true = (==_iff _ _).1 edge in
      elim (Bool-cases (ltb ((slot.cur_sector + 1) % 2 ^ 8) bpb.sectors_per_cluster)) [
        | inl same ↦
            let sec : (slot.cur_sector + 1) % 2 ^ 8 ≡ suc slot.cur_sector = omega arith in
            simp (advanced, at_edge, same)
              (on _ more (ground (arith, same)) g (
                at_start d _ more edge
                ∙ ap
                    (λ x.
                      cluster_bytes d slot.cur_cluster x (bpb.sectors_per_cluster - x)
                      ++ chain_bytes d more)
                    sec))
        | inr next ↦
            let full = later_full d slot more (ground (arith, next, h, u)) in
            last_sector more g at_edge next full
      ]
    where
      last_sector :
          (more : List ℕ)
          → Follows d slot.cur_cluster more
          → ((slot.file_offset + n) % 2 ^ 32 % 512 == 0) ≡ true
          → ltb ((slot.cur_sector + 1) % 2 ^ 8) bpb.sectors_per_cluster ≡ false
          → later d slot more ≡ chain_bytes d more
          → Goes d slot more (advanced ata bpb slot n d)
      last_sector [] e at_edge next full = simp (advanced, at_edge, next, e) (ends _ full)
      last_sector (c ∷ cs) (e, n0, nf, rest) at_edge next full =
          let from_zero : bpb.sectors_per_cluster - 0 ≡ bpb.sectors_per_cluster = omega arith in
          let goes_on : (c == 0xFFFF || c == 0) ≡ false = ground (arith, n0, nf) in
          simp (advanced, at_edge, next, e, goes_on)
            (on _ cs (omega (arith, h)) rest (
              at_start d _ cs edge
              ∙ ap (λ x. cluster_bytes d c 0 x ++ chain_bytes d cs) from_zero
              ∙ sym full))

  read_loop-step :
      (fuel want : ℕ) (slot : FatFd) (d : Disk)
      → want ≢ 0
      → (read_loop ata (suc fuel) bpb want slot d).0
        ≡ bytes_from
            (sector d (position_lba ata bpb slot))
            (slot.file_offset % 512)
            (min (512 - slot.file_offset % 512) want)
          ++ (if (advanced ata bpb slot (min (512 - slot.file_offset % 512) want) d).0
              then (read_loop ata fuel bpb
                  (want - min (512 - slot.file_offset % 512) want)
                  (advanced ata bpb slot (min (512 - slot.file_offset % 512) want) d).1
                  d).0
              else [])
  unfolding read_loop
  read_loop-step fuel want slot d h =
      let some_left : (want == 0) ≡ false = ground (arith, h) in
      let e = (works.reads d (position_lba ata bpb slot)).1 in
      elim (Bool-cases (advanced ata bpb slot (min (512 - slot.file_offset % 512) want) d).0) [
        | inl t ↦ simp (read_loop, some_left, e, t) refl
        | inr f ↦ simp (read_loop, some_left, e, f) (sym (append-nil _))
      ]

  -- What the loop at fuel `fuel` returns.
  abbrev Reads : ℕ → Disk → Type 0
  Reads fuel d =
      (want : ℕ) (slot : FatFd) (more : List ℕ)
      → want ≤ fuel
      → slot.cur_sector < bpb.sectors_per_cluster
      → Follows d slot.cur_cluster more
      → (read_loop ata fuel bpb want slot d).0 ≡ take want (ahead d slot more)

  abbrev goes : ℕ → ℕ → Disk → Bool × FatFd → List ℕ
  goes fuel want d (go, slot) = if go then (read_loop ata fuel bpb want slot d).0 else []

  goes-later :
      (fuel want : ℕ) (slot : FatFd) (d : Disk) (more : List ℕ) (a : Bool × FatFd)
      → want ≤ fuel
      → Reads fuel d
      → Goes d slot more a
      → goes fuel want d a ≡ take want (later d slot more)
  goes-later fuel want slot d more a f ih (ends last nil) = sym (ap (take want) nil ∙ take-nil want)
  goes-later fuel want slot d more a f ih (on slot1 more1 h g e) =
      ih want slot1 more1 f h g ∙ ap (take want) e

  goes_none : (fuel : ℕ) (d : Disk) (a : Bool × FatFd) → goes fuel 0 d a ≡ []
  goes_none fuel d (true, slot) = read_loop_none fuel slot d
  goes_none fuel d (false, slot) = refl

  -- The bytes that the loop returns, with a round for each of them at most.
  read_loop-ahead : (fuel : ℕ) (d : Disk) → bpb.sectors_per_cluster < 2 ^ 8 → Reads fuel d
  read_loop-ahead zero d u = λ want slot more f h g.
      let none_left : want ≡ 0 = omega arith in
      subst (λ w. (read_loop ata zero bpb w slot d).0 ≡ take w (ahead d slot more)) (sym none_left)
        (read_loop_none zero slot d)
  read_loop-ahead (suc fuel) d u = λ want slot more f h g.
      let off = slot.file_offset % 512 in
      let avail = min (512 - off) want in
      let here = sector d (position_lba ata bpb slot) in
      let a = advanced ata bpb slot avail d in
      let ih = read_loop-ahead fuel d u in
      elim (ℕ_discrete want 0) [
        | yes e ↦
            subst (λ w. (read_loop ata (suc fuel) bpb w slot d).0 ≡ take w (ahead d slot more))
              (sym e) (read_loop_none (suc fuel) slot d)
        | no ne ↦
            let rest : goes fuel (want - avail) d a
                ≡ take (want - (512 - off)) (later d slot more) =
              elim (ℕ_discrete ((slot.file_offset + avail) % 2 ^ 32 % 512) 0) [
                | yes edge ↦
                    goes-later fuel (want - avail) slot d more a (omega (arith, ne)) ih
                      (advanced-Goes d slot more avail u h g edge)
                    ∙ ap (λ n. take n (later d slot more)) (omega (arith, edge, ne))
                | no inside ↦
                    let done : want - avail ≡ 0 = omega (arith, inside) in
                    let all : 0 ≡ want - (512 - off) = omega (arith, inside) in
                    ap (λ n. goes fuel n d a) done
                    ∙ goes_none fuel d a
                    ∙ ap (λ n. take n (later d slot more)) all
              ] in
            read_loop-step fuel want slot d ne
            ∙ ap (λ x. bytes_from here off avail ++ x) rest
            ∙ sym (take-ahead d slot more want h)
      ]

  -- On a disk where no sector fails, a read of an open file whose position is in a chain of
  -- clusters returns the next bytes of the chain, as many as the caller and the file's size allow,
  -- and their number.
  pub read_fd-ahead :
      (fs : FatFs) (fd : ℤ) (len : ℕ) (d : Disk) (more : List ℕ)
      → fs.bpb ≡ bpb
      → fs.ready ≡ true
      → is_fat_fd fd ≡ true
      → (fd_at fs (slot_of fd)).active ≡ true
      → bpb.sectors_per_cluster < 2 ^ 8
      → (fd_at fs (slot_of fd)).cur_sector < bpb.sectors_per_cluster
      → Follows d (fd_at fs (slot_of fd)).cur_cluster more
      → let slot = fd_at fs (slot_of fd) in
        let bytes = take (min len (slot.file_size - slot.file_offset)) (ahead d slot more) in
        ((read_fd ata fs fd len d).0 ≡ pos (length bytes)) × ((read_fd ata fs fd len d).1 ≡ bytes)
  unfolding read_fd
  read_fd-ahead fs fd len d more b ready is_fat active u h g =
      let slot = fd_at fs (slot_of fd) in
      let want = min len (slot.file_size - slot.file_offset) in
      let e = read_loop-ahead want d u want slot more (omega arith) h g in
      simp (read_fd, ready, is_fat, active, b) (ap (λ x. pos (length x)) e, e)
