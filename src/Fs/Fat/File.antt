-- ===== src/Fs/Fat/File.antt =====
-- kernel/src/kernel/fs/fat.rs: the open files of a FAT16 volume. A loop runs on fuel; a round of it
-- moves at least one byte, so the number of bytes asked for is enough.
pub mod Bytes
pub mod Read
use oxide_os.Prelude.{
  ℕ, zero, suc, ◌+◌, ◌-◌, ◌*◌, ◌/◌, ◌%◌, ◌^◌, min, Bool, true, false, not, ◌&&◌, ◌||◌, Option, none,
  some, ltb, leb, ◌==◌, if◌then◌else◌, List, [], ◌∷◌, ◌++◌, length, get_or, set, take, drop, ℤ, pos,
  negsuc, neg, sub_ℕ,
}
use oxide_os.Fs.Mbr.{Sector, put, put_word}
use oxide_os.Fs.Ata.{Ata}
use oxide_os.Fs.Fat.{Bpb, cluster_to_lba, fat_next, fat_alloc_cluster, fat_write_entry}

pub record FatFd : Type 0 where
  pub active : Bool
  pub writable : Bool
  pub file_size : ℕ
  pub first_cluster : ℕ
  pub cur_cluster : ℕ
  pub cur_sector : ℕ
  pub file_offset : ℕ
  pub dir_entry_sector : ℕ
  pub dir_entry_offset : ℕ

abbrev pub empty_fd : FatFd
empty_fd = record {
  active = false;
  writable = false;
  file_size = 0;
  first_cluster = 0;
  cur_cluster = 0;
  cur_sector = 0;
  file_offset = 0;
  dir_entry_sector = 0;
  dir_entry_offset = 0;
}

pub record FatFs : Type 0 where
  pub ready : Bool
  pub bpb : Bpb
  pub fds : List FatFd

abbrev pub fat_fd_base : ℕ
fat_fd_base = 64

abbrev pub fat_fd_count : ℕ
fat_fd_count = 16

unfoldable pub is_fat_fd : ℤ → Bool
is_fat_fd (pos n) = leb fat_fd_base n && ltb n (fat_fd_base + fat_fd_count)
is_fat_fd (negsuc n) = false

-- The index of a descriptor for which `is_fat_fd` holds.
abbrev pub slot_of : ℤ → ℕ
slot_of (pos n) = n - fat_fd_base
slot_of (negsuc n) = 0

abbrev pub fd_at : FatFs → ℕ → FatFd
fd_at fs i = get_or fs.fds i empty_fd

abbrev pub with_fd : FatFs → ℕ → FatFd → FatFs
with_fd fs i slot = record fs { fds = set fs.fds i slot }

-- A nonnegative number plus an `i64`.
abbrev pub plus : ℕ → ℤ → ℤ
plus a (pos n) = pos (a + n)
plus a (negsuc n) = sub_ℕ a (suc n)

-- A sum that does not fit an `i64` wraps to a negative number.
unfoldable pub sought : FatFs → ℕ → ℤ → ℤ × FatFs
sought fs i (pos n) =
    if leb (2 ^ 63) n
    then (neg 22, fs)
    else (pos n, with_fd fs i (record (fd_at fs i) { file_offset = n % 2 ^ 32 }))
sought fs i (negsuc n) = (neg 22, fs)

unfoldable pub file_seek : FatFs → ℤ → ℤ → ℕ → ℤ × FatFs
unfolding is_fat_fd sought
file_seek fs fd offset whence =
    let i = slot_of fd in
    let slot = fd_at fs i in
    if not (is_fat_fd fd)
    then (neg 9, fs)
    else if whence == 0
    then sought fs i offset
    else if whence == 1
    then sought fs i (plus slot.file_offset offset)
    else if whence == 2
    then sought fs i (plus slot.file_size offset)
    else (neg 22, fs)

unfoldable pub file_size_of : FatFs → ℤ → ℕ
unfolding is_fat_fd
file_size_of fs fd = if is_fat_fd fd then (fd_at fs (slot_of fd)).file_size else 0

-- `n` bytes of a sector from `i` on.
unfoldable pub bytes_from : Sector → ℕ → ℕ → List ℕ
bytes_from buf i zero = []
bytes_from buf i (suc n) = buf i ∷ bytes_from buf (suc i) n

-- `copy_from_slice` into a sector from `i` on.
unfoldable pub copied : Sector → ℕ → List ℕ → Sector
copied buf i [] = buf
copied buf i (b ∷ bytes) = copied (put i b buf) (suc i) bytes

module _ (ata : Ata) where
  open ata use {Disk, read_sector, write_sector}

  unfoldable pub flush_dir_size : FatFd → Disk → Disk
  unfolding put_word
  flush_dir_size slot d =
      let off = slot.dir_entry_offset in
      let d1 : Disk = elim (read_sector d slot.dir_entry_sector) [
        | none ↦ d
        | some buf ↦
            (write_sector d slot.dir_entry_sector (
              put (off + 27) (slot.first_cluster / 2 ^ 8) (
                put (off + 26) (slot.first_cluster % 2 ^ 8)
                  (put_word (off + 28) slot.file_size buf)))).1
      ] in
      if slot.dir_entry_sector == 0 then d else d1

  -- The sector that the position is in.
  abbrev pub position_lba : Bpb → FatFd → ℕ
  position_lba bpb slot = (cluster_to_lba bpb slot.cur_cluster + slot.cur_sector) % 2 ^ 32

  -- The position after `n` bytes in its sector, and whether the loop goes on. The cluster changes
  -- when its last sector is passed, unless the chain ends.
  unfoldable pub advanced : Bpb → FatFd → ℕ → Disk → Bool × FatFd
  advanced bpb slot n d =
      let moved = record slot { file_offset = (slot.file_offset + n) % 2 ^ 32 } in
      let sector = (slot.cur_sector + 1) % 2 ^ 8 in
      let next = fat_next ata bpb slot.cur_cluster d in
      if not (moved.file_offset % 512 == 0)
      then (true, moved)
      else if ltb sector bpb.sectors_per_cluster
      then (true, record moved { cur_sector = sector })
      else if next == 0xFFFF || next == 0
      then (false, record moved { cur_sector = 0 })
      else (true, record moved { cur_sector = 0; cur_cluster = next })

  -- The loop of `read_fd`: the bytes read, at most `want`, and the position.
  unfoldable pub read_loop : ℕ → Bpb → ℕ → FatFd → Disk → List ℕ × FatFd
  unfolding bytes_from advanced
  read_loop zero bpb want slot d = ([], slot)
  read_loop (suc fuel) bpb want slot d =
      if want == 0 then ([], slot) else elim (read_sector d (position_lba bpb slot)) [
        | none ↦ ([], slot)
        | some buf ↦
            let byte_off = slot.file_offset % 512 in
            let avail = min (512 - byte_off) want in
            let chunk = bytes_from buf byte_off avail in
            let (goes_on, slot1) = advanced bpb slot avail d in
            elim goes_on [
              | true ↦
                  let (rest, last) = read_loop fuel bpb (want - avail) slot1 d in
                  (chunk ++ rest, last)
              | false ↦ (chunk, slot1)
            ]
      ]

  -- The count, or -5, the bytes, and the files.
  unfoldable pub read_fd : FatFs → ℤ → ℕ → Disk → ℤ × List ℕ × FatFs
  unfolding is_fat_fd read_loop
  read_fd fs fd len d =
      let i = slot_of fd in
      let slot = fd_at fs i in
      let want = min len (slot.file_size - slot.file_offset) in
      let (bytes, last) = read_loop want fs.bpb want slot d in
      if not fs.ready || not (is_fat_fd fd)
      then (neg 5, [], fs)
      else if not slot.active
      then (neg 5, [], fs)
      else (pos (length bytes), bytes, with_fd fs i last)

  -- A file without a cluster gets its first one.
  unfoldable pub first_cluster_of : Bpb → FatFd → Disk → Option FatFd × Disk
  first_cluster_of bpb slot d =
      let (cl, d1) = fat_alloc_cluster ata bpb d in
      if not (ltb slot.cur_cluster 2)
      then (some slot, d)
      else if cl == 0
      then (none, d1)
      else (some (record slot { first_cluster = cl; cur_cluster = cl; cur_sector = 0 }), d1)

  -- The position after a sector was written. At the end of the chain a cluster is added only if
  -- bytes are left to write.
  unfoldable pub extended : Bpb → FatFd → ℕ → Bool → Disk → Bool × FatFd × Disk
  extended bpb slot n more d =
      let offset = (slot.file_offset + n) % 2 ^ 32 in
      let moved = record slot {
        file_offset = offset;
        file_size = if ltb slot.file_size offset then offset else slot.file_size;
      } in
      let sector = (slot.cur_sector + 1) % 2 ^ 8 in
      let next = fat_next ata bpb slot.cur_cluster d in
      let first = record moved { cur_sector = 0 } in
      let (cl, d1) = fat_alloc_cluster ata bpb d in
      let d2 = (fat_write_entry ata bpb slot.cur_cluster cl d1).1 in
      if not (offset % 512 == 0)
      then (true, moved, d)
      else if ltb sector bpb.sectors_per_cluster
      then (true, record moved { cur_sector = sector }, d)
      else if not (leb 0xFFF8 next || next == 0)
      then (true, record first { cur_cluster = next }, d)
      else if not more
      then (true, first, d)
      else if cl == 0
      then (false, first, d1)
      else (true, record first { cur_cluster = cl }, d2)

  -- The sector to change: all zeros where it is overwritten as a whole.
  abbrev pub old_sector : Disk → ℕ → ℕ → ℕ → Option Sector
  old_sector d lba byte_off avail =
      if byte_off == 0 && not (ltb avail 512) then some (λ _. 0) else read_sector d lba

  -- The loop of `write_fd`: how many bytes were written, the position, and the disk.
  unfoldable pub write_loop : ℕ → Bpb → List ℕ → FatFd → Disk → ℕ × FatFd × Disk
  unfolding first_cluster_of extended copied
  write_loop zero bpb bytes slot d = (0, slot, d)
  write_loop (suc fuel) bpb [] slot d = (0, slot, d)
  write_loop (suc fuel) bpb (b ∷ bs) slot d =
      let (first, d1) = first_cluster_of bpb slot d in
      elim first [
        | none ↦ (0, slot, d1)
        | some s ↦
            let byte_off = s.file_offset % 512 in
            let avail = min (512 - byte_off) (length (b ∷ bs)) in
            let lba = position_lba bpb s in
            elim (old_sector d1 lba byte_off avail) [
              | none ↦ (0, s, d1)
              | some buf ↦
                  let (done, d2) =
                    write_sector d1 lba (copied buf byte_off (take avail (b ∷ bs))) in
                  let left = drop avail (b ∷ bs) in
                  let (goes_on, s1, d3) = extended bpb s avail (not (length left == 0)) d2 in
                  elim done [
                    | false ↦ (0, s, d2)
                    | true ↦ elim goes_on [
                      | false ↦ (avail, s1, d3)
                      | true ↦
                          let (n, last, d4) = write_loop fuel bpb left s1 d3 in
                          (avail + n, last, d4)
                    ]
                  ]
            ]
      ]

  unfoldable pub write_fd : FatFs → ℤ → List ℕ → Disk → ℤ × FatFs × Disk
  unfolding is_fat_fd write_loop flush_dir_size
  write_fd fs fd bytes d =
      let i = slot_of fd in
      let slot = fd_at fs i in
      let (n, last, d1) = write_loop (length bytes) fs.bpb bytes slot d in
      if not fs.ready || not (is_fat_fd fd)
      then (neg 5, fs, d)
      else if not slot.active
      then (neg 5, fs, d)
      else if not slot.writable
      then (neg 9, fs, d)
      else (pos n, with_fd fs i last, flush_dir_size last d1)

  unfoldable pub close : FatFs → ℤ → Disk → ℤ × FatFs × Disk
  unfolding is_fat_fd flush_dir_size
  close fs fd d =
      let i = slot_of fd in
      let slot = fd_at fs i in
      if not (is_fat_fd fd) then (neg 5, fs, d) else (
        pos 0,
        with_fd fs i (record slot { active = false }),
        if slot.active && slot.writable then flush_dir_size slot d else d,
      )
