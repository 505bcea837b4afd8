-- ===== src/Fs/Fat/Tests.antt =====
-- A volume of one table sector, whose data starts at sector 4, on a disk that never fails.
use oxide_os.Prelude.{
  ℕ, ◌≡◌, refl, ◌-◌, min, true, ◌==◌, if◌then◌else◌, some, List, [], ◌∷◌, take, drop, map, length,
  arith, ==_self, ℤ, pos, neg, replicate, false, none,
}
use oxide_os.Fs.Mbr.{Sector, put_word}
use oxide_os.Fs.Ata.{Ata, IsDisk, NeverFails}
use oxide_os.Fs.Fat.{
  Bpb, patched, write_copies, fat_write_entry, fat_next, find_free, free_in, fat_alloc_cluster,
  free_cluster_chain, cluster_to_lba,
}
use oxide_os.Fs.Fat.Table.{IsFat}
use oxide_os.Fs.Fat.Alloc.{Allocates, fat_alloc_cluster-Allocates}
use oxide_os.Fs.Fat.Chain.{Freed, free_cluster_chain-Freed}
use oxide_os.Fs.Fat.Names.{component_to_83, fat83_to_string, join, lower, name83, names-roundtrip}
use oxide_os.Fs.Fat.File.{
  FatFd, FatFs, empty_fd, is_fat_fd, slot_of, fd_at, first_cluster_of, extended, write_loop,
  write_fd, flush_dir_size, copied,
}
use oxide_os.Fs.Fat.Mounted.{mounted, read_fd-fat}
use oxide_os.Fs.FdTable
use oxide_os.Fs.FdTable.{FdEntry, fat16, Devices, World, entry}
use oxide_os.Ipc.Stdin.{ring_init}
use oxide_os.Fs.Fat.File.Read.{ahead}

abbrev store : (ℕ → Sector) → ℕ → Sector → ℕ → Sector
store d lba s other = if other == lba then s else d other

abbrev ram : Ata
ram = record {
  Disk = ℕ → Sector;
  read_sector = λ d lba. some (d lba);
  write_sector = λ d lba s. (true, store d lba s);
}

ram-IsDisk : IsDisk ram
ram-IsDisk = record {
  written = λ d lba s done. simp (==_self lba) refl;
  others = λ d lba s other ne. ground (arith, ne);
}

ram-NeverFails : NeverFails ram
ram-NeverFails = record { reads = λ d lba. (d lba, refl); writes = λ d lba s. refl }

abbrev volume : Bpb
volume = record {
  bytes_per_sector = 512;
  sectors_per_cluster = 1;
  reserved_sectors = 1;
  fat_count = 2;
  root_entry_count = 16;
  fat_size_16 = 1;
  fat_start_lba = 1;
  root_dir_lba = 3;
  data_start_lba = 4;
}

volume-IsFat : IsFat volume
volume-IsFat = record { copies = omega arith; size = omega arith; fits = omega arith }

-- All zeros, but clusters 2 and 3 are a chain.
abbrev chained : ℕ → Sector
chained = (fat_write_entry ram volume 3 0xFFFF (fat_write_entry ram volume 2 3 (λ _ _. 0)).1).1

abbrev blank : ℕ → Sector
blank = λ _ _. 0

written_once : (fat_write_entry ram volume 2 3 blank).0 ≡ true
unfolding fat_write_entry write_copies
written_once = refl

takes_four : (fat_alloc_cluster ram volume chained).0 ≡ 4
unfolding fat_alloc_cluster find_free free_in fat_write_entry write_copies patched
takes_four = refl

fat_alloc_cluster-Allocates_example :
    Allocates ram ram-IsDisk volume volume-IsFat chained (fat_alloc_cluster ram volume chained)
fat_alloc_cluster-Allocates_example =
    fat_alloc_cluster-Allocates ram ram-IsDisk volume volume-IsFat chained

links : (fat_next ram volume 2 chained ≡ 3) × (fat_next ram volume 3 chained ≡ 0xFFFF)
unfolding fat_next fat_write_entry write_copies patched
links = (refl, refl)

free_cluster_chain-Freed_example :
    Freed ram ram-IsDisk volume volume-IsFat chained
      (2 ∷ (3 ∷ []))
      (free_cluster_chain ram volume 2 2 chained)
free_cluster_chain-Freed_example =
    free_cluster_chain-Freed ram ram-IsDisk volume volume-IsFat ram-NeverFails 2 2 (3 ∷ []) chained
      (omega arith, links.0, (omega arith, links.1)) (omega arith) (omega arith)

-- `README` and `TXT`.
abbrev readme : List ℕ
readme = b'R' ∷ b'e' ∷ b'a' ∷ b'd' ∷ b'm' ∷ b'e' ∷ []

abbrev txt : List ℕ
txt = b't' ∷ b'x' ∷ b't' ∷ []

names-roundtrip_example :
    (component_to_83 (join readme txt) ≡ some (name83 readme txt))
    × (component_to_83 (map lower (join readme txt)) ≡ some (name83 readme txt))
    × (fat83_to_string (take 8 (name83 readme txt)) (drop 8 (name83 readme txt))
        ≡ map lower (join readme txt))
names-roundtrip_example =
    names-roundtrip readme txt (omega arith) (omega arith) (omega arith) (omega arith) (omega arith)

-- A file of 600 bytes in clusters 2 and 3, at its start.
abbrev at_two : FatFd
at_two = record empty_fd {
  active = true;
  writable = true;
  file_size = 600;
  first_cluster = 2;
  cur_cluster = 2;
}

abbrev files : FatFs
files = record { ready = true; bpb = volume; fds = at_two ∷ [] }

in_range : is_fat_fd (pos 64) ≡ true
unfolding is_fat_fd
in_range = refl

-- A file of one cluster, open for writing at its start.
abbrev one_cluster : FatFs
one_cluster = record {
  ready = true;
  bpb = volume;
  fds = record at_two { file_size = 0; first_cluster = 3; cur_cluster = 3 } ∷ [];
}

-- A write that fills the cluster, and then one more byte.
abbrev filled : ℤ × FatFs × (ℕ → Sector)
filled = write_fd ram one_cluster (pos 64) (replicate 512 7) chained

abbrev one_more : ℤ × FatFs × (ℕ → Sector)
one_more = write_fd ram filled.1 (pos 64) (9 ∷ []) filled.2

first_byte_lost : (filled.2 5 0 ≡ 7) × (one_more.2 5 0 ≡ 9)
unfolding write_fd write_loop first_cluster_of extended copied is_fat_fd flush_dir_size fat_next
    fat_alloc_cluster find_free free_in fat_write_entry write_copies patched cluster_to_lba put_word
first_byte_lost = (refl, refl)

-- A task whose descriptor 3 is the file, and no other device.
abbrev no_devices : Devices
no_devices = record {
  Disk = Unit;
  fat_close = λ d _. d;
  fat_read = λ d _ _. (neg 5, [], d);
  fat_write = λ d _ _. (neg 5, d);
  ext2_close = λ d _. d;
  ext2_read = λ d _ _. (neg 5, [], d);
  ext2_write = λ d _ _. (neg 5, d);
  output_write = λ d _. d;
}

abbrev fat_file : FdEntry
fat_file = entry fat16 0 (pos 64) 0 true false

abbrev task : World (FatFs × (ℕ → Sector) × Unit)
task = record {
  table = none ∷ none ∷ none ∷ some fat_file ∷ [];
  fs = [];
  pipes = [];
  stdin = ring_init;
  disk = (files, chained, tt);
}

read_fd-fat_example :
    let slot = fd_at files (slot_of (pos 64)) in
    let bytes =
      take
        (min 520 (slot.file_size - slot.file_offset))
        (ahead ram ram-NeverFails volume chained slot (3 ∷ [])) in
    let out = FdTable.read_fd (mounted ram no_devices) task (pos 3) 520 in
    (out.0 ≡ pos (length bytes))
    × (out.1 ≡ bytes)
    × (out.2.table ≡ task.table)
    × (out.2.fs ≡ task.fs)
    × (out.2.pipes ≡ task.pipes)
    × (out.2.disk.1 ≡ task.disk.1)
read_fd-fat_example =
    read_fd-fat ram ram-NeverFails no_devices task (pos 3) fat_file 520 (3 ∷ []) refl refl refl refl
      in_range refl (omega arith) (omega arith) (links.0, omega arith, omega arith, links.1)
