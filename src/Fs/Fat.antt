-- ===== src/Fs/Fat.antt =====
-- kernel/src/kernel/fs/fat.rs: the layout of a FAT16 volume and its allocation table. The sectors
-- are read and written through the disk driver.
pub mod Table
pub mod Alloc
pub mod Chain
pub mod Names
pub mod File
pub mod Mounted
mod Tests
use oxide_os.Prelude.{
  ℕ, zero, suc, ◌+◌, ◌-◌, ◌*◌, ◌/◌, ◌%◌, ◌^◌, Bool, true, false, not, ◌&&◌, ◌||◌, Option, none,
  some, ltb, leb, ◌==◌, if◌then◌else◌,
}
use oxide_os.Fs.Mbr.{Sector, put}
use oxide_os.Fs.Ata.{Ata}

pub record Bpb : Type 0 where
  pub bytes_per_sector : ℕ
  pub sectors_per_cluster : ℕ
  pub reserved_sectors : ℕ
  pub fat_count : ℕ
  pub root_entry_count : ℕ
  pub fat_size_16 : ℕ
  pub fat_start_lba : ℕ
  pub root_dir_lba : ℕ
  pub data_start_lba : ℕ

-- `u16::from_le_bytes` of two bytes from `i` on.
abbrev pub le_half : Sector → ℕ → ℕ
le_half buf i = buf i + buf (i + 1) * 2 ^ 8

-- The layout that `init` reads from the boot sector at `part_offset`.
unfoldable pub layout : ℕ → Sector → Bpb
layout part_offset buf =
    let reserved = le_half buf 14 in
    let fat_size = le_half buf 22 in
    let root_entries = le_half buf 17 in
    let root_dir = (part_offset + reserved + buf 16 * fat_size) % 2 ^ 32 in
    record {
      bytes_per_sector = le_half buf 11;
      sectors_per_cluster = buf 13;
      reserved_sectors = reserved;
      fat_count = buf 16;
      root_entry_count = root_entries;
      fat_size_16 = fat_size;
      fat_start_lba = (part_offset + reserved) % 2 ^ 32;
      root_dir_lba = root_dir;
      data_start_lba = (root_dir + (root_entries * 32 + 511) / 512) % 2 ^ 32;
    }

-- `cluster - 2` of a `u32` wraps below 2.
unfoldable pub cluster_to_lba : Bpb → ℕ → ℕ
cluster_to_lba bpb cluster =
    (bpb.data_start_lba + (cluster + 2 ^ 32 - 2) % 2 ^ 32 * bpb.sectors_per_cluster) % 2 ^ 32

-- The sector of a cluster's entry in the first table, and the place in the sector.
abbrev pub fat_lba : Bpb → ℕ → ℕ
fat_lba bpb cluster = (bpb.fat_start_lba + cluster * 2 / 512) % 2 ^ 32

abbrev pub byte_in_sector : ℕ → ℕ
byte_in_sector cluster = cluster * 2 % 512

-- The sector with the entry of a cluster set to a `u16`.
unfoldable pub patched : ℕ → ℕ → Sector → Sector
patched cluster value buf =
    put (byte_in_sector cluster + 1) (value / 2 ^ 8)
      (put (byte_in_sector cluster) (value % 2 ^ 8) buf)

-- The two bytes of an entry.
abbrev pub value_at : ℕ → Sector → ℕ
value_at cluster buf = le_half buf (byte_in_sector cluster)

-- The first cluster of the table's sector `s` from entry `i` on whose two bytes are zero. The
-- number of a cluster is a `u16`.
unfoldable pub free_in : Sector → ℕ → ℕ → ℕ → Option ℕ
free_in buf s i zero = none
free_in buf s i (suc n) =
    let rest = free_in buf s (suc i) n in
    let cluster = (s * 256 + i) % 2 ^ 16 in
    if ltb cluster 2
    then rest
    else if buf (i * 2) == 0 && buf (i * 2 + 1) == 0
    then some cluster
    else rest

module _ (ata : Ata) (bpb : Bpb) where
  open ata use {Disk, read_sector, write_sector}

  -- The copies of the table from number `copy` on.
  unfoldable pub write_copies : ℕ → ℕ → ℕ → ℕ → Disk → Bool × Disk
  write_copies cluster value copy zero d = (true, d)
  write_copies cluster value copy (suc n) d =
      let lba = (fat_lba bpb cluster + copy * bpb.fat_size_16) % 2 ^ 32 in
      elim (read_sector d lba) [
        | none ↦ (false, d)
        | some buf ↦
            let (done, d1) = write_sector d lba (patched cluster value buf) in
            elim done [ true ↦ write_copies cluster value (suc copy) n d1 | false ↦ (false, d1) ]
      ]

  unfoldable pub fat_write_entry : ℕ → ℕ → Disk → Bool × Disk
  unfolding write_copies
  fat_write_entry cluster value d = write_copies cluster value 0 bpb.fat_count d

  -- The end of a chain is always 0xFFFF, and an entry that cannot be read is 0.
  unfoldable pub fat_next : ℕ → Disk → ℕ
  fat_next cluster d = elim (read_sector d (fat_lba bpb cluster)) [
    | none ↦ 0
    | some buf ↦ if leb 0xFFF8 (value_at cluster buf) then 0xFFFF else value_at cluster buf
  ]

  -- The search of the table from its sector `s` on. A sector that cannot be read is passed over.
  unfoldable pub find_free : Disk → ℕ → ℕ → Option ℕ
  find_free d s zero = none
  find_free d s (suc n) =
      let rest = find_free d (suc s) n in
      elim (read_sector d ((bpb.fat_start_lba + s) % 2 ^ 32)) [
        | none ↦ rest
        | some buf ↦ elim (free_in buf s 0 256) [ none ↦ rest | some cluster ↦ some cluster ]
      ]

  -- The cluster, 0 when none is free or its entry cannot be written.
  unfoldable pub fat_alloc_cluster : Disk → ℕ × Disk
  unfolding find_free
  fat_alloc_cluster d = elim (find_free d 0 bpb.fat_size_16) [
    | none ↦ (0, d)
    | some cluster ↦
        let (done, d1) = fat_write_entry cluster 0xFFFF d in (if done then cluster else 0, d1)
  ]

  -- The loop on fuel.
  unfoldable pub free_cluster_chain : ℕ → ℕ → Disk → Disk
  free_cluster_chain zero cl d = d
  free_cluster_chain (suc fuel) cl d =
      let next = fat_next cl d in
      let d1 = (fat_write_entry cl 0 d).1 in
      let rest = free_cluster_chain fuel next d1 in
      if not (leb 2 cl && ltb cl 0xFFF8)
      then d
      else if next == 0 || next == 0xFFFF
      then d1
      else rest
