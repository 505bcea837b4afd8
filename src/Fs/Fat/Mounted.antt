-- ===== src/Fs/Fat/Mounted.antt =====
-- A FAT16 volume behind the descriptors of a task: the disk of the descriptor table is a volume's
-- open files and sectors, beside what stands for the other devices.
use oxide_os.Prelude.{
  ℕ, ◌-◌, ◌^◌, ◌<◌, ◌≡◌, refl, min, true, false, some, List, length, take, ℤ, pos, to_usize,
}
use oxide_os.Fs.Ata.{Ata, NeverFails}
use oxide_os.Fs.Fat.File
use oxide_os.Fs.Fat.File.{FatFs, is_fat_fd, slot_of, fd_at}
use oxide_os.Fs.Fat.File.Read.{Follows, ahead, read_fd-ahead}
use oxide_os.Fs.FdTable
use oxide_os.Fs.FdTable.{FdEntry, fat16, Devices, World, bad_fd, entry_at}

-- The calls of fat.rs in the place of the disk's part, the other devices as they are.
abbrev pub mounted : Ata → Devices → Devices
mounted ata rest = record {
  Disk = FatFs × ata.Disk × rest.Disk;
  fat_close = λ (fs, d, r) fd. let (_, fs1, d1) = File.close ata fs fd d in (fs1, d1, r);
  fat_read = λ (fs, d, r) fd room.
      let (n, bytes, fs1) = File.read_fd ata fs fd room d in (n, bytes, (fs1, d, r));
  fat_write = λ (fs, d, r) fd bytes.
      let (n, fs1, d1) = File.write_fd ata fs fd bytes d in (n, (fs1, d1, r));
  ext2_close = λ (fs, d, r) fd. (fs, d, rest.ext2_close r fd);
  ext2_read = λ (fs, d, r) fd room.
      let (n, bytes, r1) = rest.ext2_read r fd room in (n, bytes, (fs, d, r1));
  ext2_write = λ (fs, d, r) fd bytes. let (n, r1) = rest.ext2_write r fd bytes in (n, (fs, d, r1));
  output_write = λ (fs, d, r) bytes. (fs, d, rest.output_write r bytes);
}

-- On a disk where no sector fails, a read of a descriptor that stands for an open FAT file whose
-- position is in a chain of clusters returns the next bytes of the chain, as many as the caller and
-- the file's size allow, and their number, and changes neither the descriptors nor a RAM file, a
-- pipe or a sector.
pub read_fd-fat :
    (ata : Ata) (works : NeverFails ata) (rest : Devices) (w : World (FatFs × ata.Disk × rest.Disk))
    (fd : ℤ) (e : FdEntry) (room : ℕ) (more : List ℕ)
    → bad_fd fd ≡ false
    → entry_at w.table (to_usize fd) ≡ some e
    → e.backend ≡ fat16
    → w.disk.0.ready ≡ true
    → is_fat_fd e.raw_fd ≡ true
    → (fd_at w.disk.0 (slot_of e.raw_fd)).active ≡ true
    → w.disk.0.bpb.sectors_per_cluster < 2 ^ 8
    → (fd_at w.disk.0 (slot_of e.raw_fd)).cur_sector < w.disk.0.bpb.sectors_per_cluster
    → Follows ata works w.disk.0.bpb w.disk.1 (fd_at w.disk.0 (slot_of e.raw_fd)).cur_cluster more
    → let slot = fd_at w.disk.0 (slot_of e.raw_fd) in
      let bytes =
        take
          (min room (slot.file_size - slot.file_offset))
          (ahead ata works w.disk.0.bpb w.disk.1 slot more) in
      let out = FdTable.read_fd (mounted ata rest) w fd room in
      (out.0 ≡ pos (length bytes))
      × (out.1 ≡ bytes)
      × (out.2.table ≡ w.table)
      × (out.2.fs ≡ w.fs)
      × (out.2.pipes ≡ w.pipes)
      × (out.2.disk.1 ≡ w.disk.1)
unfolding FdTable.read_fd
read_fd-fat ata works rest w fd e room more bad at fat ready is_fat active u h g =
    let (n, bytes) =
      read_fd-ahead ata works w.disk.0.bpb w.disk.0 e.raw_fd room w.disk.1 more refl ready is_fat
        active u h g in
    simp (FdTable.read_fd, bad, at, fat) (n, bytes, refl, refl, refl, refl)
