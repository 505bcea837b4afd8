-- ===== src/Fs/FdTable.antt =====
-- kernel/src/kernel/fs/ramfs.rs, the struct FdTable: the open files of one task. A call may act on
-- the pipes, the keyboard ring, the RAM file system, the disk file systems and the console, which
-- together are the record World. The disk file systems and the console are a parameter.
pub mod Removed
pub mod Slots
mod Tests
use oxide_os.Prelude.{
  ℕ, zero, suc, ◌+◌, ◌-◌, Bool, true, false, not, ◌&&◌, ◌||◌, Option, none, some, List, [], ◌∷◌,
  ◌++◌, ltb, leb, ◌==◌, if◌then◌else◌, ℤ, pos, neg, leb_ℤ, ltb_ℤ, to_usize, length, get_or, set,
  take, drop, replicate, is_none, min, find_index,
}
use oxide_os.Ipc.Pipe
use oxide_os.Ipc.Pipe.{Pipes}
use oxide_os.Ipc.Stdin
use oxide_os.Ipc.Stdin.{Ring}
use oxide_os.Fs.Errors.{
  Result, ok, err, has_flag, o_wronly, o_rdwr, o_creat, o_trunc, o_append, enoent, eisdir, ebadf,
  emfile, eacces,
}
use oxide_os.Fs.Path.{FilePath}
use oxide_os.Fs.RamFs.{RamFs, is_directory, inode_at, set_content, resized, resolve, create_file}

abbrev pub max_fd : ℕ
max_fd = 32

pub data FdBackend : Type 0 where
  ram_fs fat16 ext2 pipe dev_null dev_tty dir : FdBackend

abbrev pub is_pipe : FdBackend → Bool
is_pipe pipe = true
is_pipe _ = false

abbrev pub is_ram_fs : FdBackend → Bool
is_ram_fs ram_fs = true
is_ram_fs _ = false

abbrev pub is_dev_null : FdBackend → Bool
is_dev_null dev_null = true
is_dev_null _ = false

pub record FdEntry : Type 0 where
  pub backend : FdBackend
  pub inode_idx : ℕ
  pub raw_fd : ℤ
  pub offset : ℕ
  pub writable : Bool
  pub append : Bool
  pub dir_path : List ℕ
  pub dir_path_len : ℕ

abbrev pub FdTable : Type 0
FdTable = List (Option FdEntry)

unfoldable pub new : FdTable
new = replicate max_fd none

-- `entries[i]`; every index that the code uses is inside the table.
abbrev pub entry_at : FdTable → ℕ → Option FdEntry
entry_at t i = get_or t i none

-- The lowest vacant descriptor from 3 on.
pub alloc_fd : FdTable → Option ℕ
unfolding find_index
alloc_fd t = elim (find_index is_none (drop 3 t)) [ none ↦ none | some i ↦ some (3 + i) ]

-- An entry with the fields that all kinds of open share.
abbrev pub entry : FdBackend → ℕ → ℤ → ℕ → Bool → Bool → FdEntry
entry backend inode_idx raw_fd offset writable append = record {
  backend = backend;
  inode_idx = inode_idx;
  raw_fd = raw_fd;
  offset = offset;
  writable = writable;
  append = append;
  dir_path = replicate 64 0;
  dir_path_len = 0;
}

-- The inode that `open` finds or makes, and the file system with it emptied or made.
pub open_inode : RamFs → FilePath → ℕ → Result ℕ × RamFs
open_inode fs path flags = elim (resolve fs path) [
  | some idx ↦ (
    ok idx,
    if has_flag flags o_trunc && not (is_directory (inode_at fs idx).kind)
        then set_content fs idx []
        else fs,
  )
  | none ↦
      if has_flag flags o_creat
      then (let (r, fs') = create_file fs path in
          elim r [ ok idx ↦ (ok idx, fs') | err _ ↦ (err enoent, fs') ])
      else (err enoent, fs)
]

pub open_file : FdTable → RamFs → FilePath → ℕ → ℤ × FdTable × RamFs
unfolding open_inode alloc_fd
open_file t fs path flags =
    let writable = has_flag flags o_wronly || has_flag flags o_rdwr in
    let append = has_flag flags o_append in
    let (r, fs') = open_inode fs path flags in
    elim r [
      | err e ↦ (e, t, fs')
      | ok idx ↦ elim (alloc_fd t) [
        | none ↦ (emfile, t, fs')
        | some fd ↦
            let offset = if append then length (inode_at fs' idx).content else 0 in
            (pos fd, set t fd (some (entry ram_fs idx (pos 0) offset writable append)), fs')
      ]
    ]

-- Where the second search fails, the first entry stays in the table.
pub open_pipe : FdTable → ℤ → ℤ → Option (ℕ × ℕ) × FdTable
unfolding alloc_fd
open_pipe t raw_read_fd raw_write_fd = elim (alloc_fd t) [
  | none ↦ (none, t)
  | some rslot ↦
      let t' = set t rslot (some (entry pipe 0 raw_read_fd 0 false false)) in
      elim (alloc_fd t') [
        | none ↦ (none, t')
        | some wslot ↦
            (some (rslot, wslot), set t' wslot (some (entry pipe 0 raw_write_fd 0 true false)))
      ]
]

-- An entry put at the lowest vacant descriptor.
pub open_with : FdTable → FdEntry → ℤ × FdTable
unfolding alloc_fd
open_with t e = elim (alloc_fd t) [ none ↦ (neg 24, t) | some fd ↦ (pos fd, set t fd (some e)) ]

pub open_fat : FdTable → ℤ → Bool → ℤ × FdTable
unfolding open_with
open_fat t raw_fd writable = open_with t (entry fat16 0 raw_fd 0 writable false)

pub open_ext2 : FdTable → ℤ → Bool → ℤ × FdTable
unfolding open_with
open_ext2 t raw_fd writable = open_with t (entry ext2 0 raw_fd 0 writable false)

pub open_dev : FdTable → FdBackend → ℤ × FdTable
unfolding open_with
open_dev t backend = open_with t (entry backend 0 (pos 0) 0 (not (is_dev_null backend)) false)

-- At most 63 bytes of the path are kept, in a buffer of 64 zeros.
pub open_dir : FdTable → List ℕ → ℤ × FdTable
unfolding open_with
open_dir t path =
    let n = min (length path) 63 in
    open_with t (record (entry dir 0 (pos 0) 0 false false) {
      dir_path = take n path ++ replicate (64 - n) 0;
      dir_path_len = n;
    })

-- The disk file systems and the console, as far as the table calls them.
pub record Devices : Type 1 where
  pub Disk : Type 0
  pub fat_close : Disk → ℤ → Disk
  pub fat_read : Disk → ℤ → ℕ → ℤ × List ℕ × Disk
  pub fat_write : Disk → ℤ → List ℕ → ℤ × Disk
  pub ext2_close : Disk → ℤ → Disk
  pub ext2_read : Disk → ℤ → ℕ → ℤ × List ℕ × Disk
  pub ext2_write : Disk → ℤ → List ℕ → ℤ × Disk
  pub output_write : Disk → List ℕ → Disk

-- What the calls on one task's table act on.
pub record World (D : Type 0) : Type 0 where
  pub table : FdTable
  pub fs : RamFs
  pub pipes : Pipes
  pub stdin : Ring
  pub disk : D

-- `fd < 0 || fd as usize >= MAX_FD`
abbrev pub bad_fd : ℤ → Bool
bad_fd fd = ltb_ℤ fd (pos 0) || leb max_fd (to_usize fd)

-- The bytes `data[offset..offset + len]` replaced, the vector grown with zeros first.
pub overwrite : List ℕ → ℕ → List ℕ → List ℕ
overwrite bytes offset new_bytes =
    let end = offset + length new_bytes in
    let grown =
      if ltb (length bytes) end then bytes ++ replicate (end - length bytes) 0 else bytes in
    take offset grown ++ (new_bytes ++ drop end grown)

-- What `write_fd` makes of a file's content: at or behind the end it appends.
pub written : List ℕ → ℕ → List ℕ → List ℕ
unfolding overwrite
written bytes offset new_bytes =
    if leb (length bytes) offset then bytes ++ new_bytes else overwrite bytes offset new_bytes

module _ (devices : Devices) where
  open devices use {
    Disk, fat_close, fat_read, fat_write, ext2_close, ext2_read, ext2_write, output_write,
  }

  -- The clean-up of `close` for an entry taken out of the table.
  pub close_entry : World Disk → FdEntry → World Disk
  close_entry w e = elim e.backend [
    | pipe ↦ record w { pipes = (Pipe.close w.pipes e.raw_fd).1 }
    | fat16 ↦ record w { disk = fat_close w.disk e.raw_fd }
    | ext2 ↦ record w { disk = ext2_close w.disk e.raw_fd }
    | _ ↦ w
  ]

  pub close : World Disk → ℤ → ℤ × World Disk
  unfolding close_entry
  close w fd = if bad_fd fd then (ebadf, w) else elim (entry_at w.table (to_usize fd)) [
    | none ↦ (ebadf, w)
    | some e ↦ (pos 0, close_entry (record w { table = set w.table (to_usize fd) none }) e)
  ]

  -- `read_fd` of a RAM file: the bytes that it stores, at most `room`.
  pub read_ram : World Disk → ℕ → FdEntry → ℕ → ℤ × List ℕ × World Disk
  read_ram w fd e room =
      if leb (length w.fs) e.inode_idx
      then (ebadf, [], w)
      else if is_directory (inode_at w.fs e.inode_idx).kind
      then (eisdir, [], w)
      else (let content = (inode_at w.fs e.inode_idx).content in
          let available = length content - e.offset in
          if available == 0
          then (pos 0, [], w)
          else (let n = min available room in
              (
                pos n,
                take n (drop e.offset content),
                record w { table = set w.table fd (some (record e { offset = e.offset + n })) },
              )))

  -- `read_fd` of the terminal: one byte of the keyboard ring.
  pub read_tty : World Disk → ℕ → ℤ × List ℕ × World Disk
  read_tty w room =
      if room == 0
      then (pos 0, [], w)
      else (let (c, ring) = Stdin.pop w.stdin in
          elim c [
            | some ch ↦ (pos 1, ch ∷ [], record w { stdin = ring })
            | none ↦ (neg 6, [], record w { stdin = ring })
          ])

  unfoldable pub read_fd : World Disk → ℤ → ℕ → ℤ × List ℕ × World Disk
  unfolding read_ram read_tty
  read_fd w fd room = if bad_fd fd then (ebadf, [], w) else elim (entry_at w.table (to_usize fd)) [
    | none ↦ (ebadf, [], w)
    | some e ↦ elim e.backend [
      | pipe ↦
          let (r, bytes, pipes) = Pipe.read w.pipes e.raw_fd room in
          (r, bytes, record w { pipes = pipes })
      | fat16 ↦
          let (r, bytes, disk) = fat_read w.disk e.raw_fd room in
          (r, bytes, record w { disk = disk })
      | ext2 ↦
          let (r, bytes, disk) = ext2_read w.disk e.raw_fd room in
          (r, bytes, record w { disk = disk })
      | dev_null ↦ (pos 0, [], w)
      | dev_tty ↦ read_tty w room
      | dir ↦ (eisdir, [], w)
      | ram_fs ↦ read_ram w (to_usize fd) e room
    ]
  ]

  pub write_ram : World Disk → ℕ → FdEntry → List ℕ → ℤ × World Disk
  unfolding written
  write_ram w fd e bytes =
      if not e.writable
      then (eacces, w)
      else if leb (length w.fs) e.inode_idx
      then (ebadf, w)
      else if is_directory (inode_at w.fs e.inode_idx).kind
      then (eisdir, w)
      else (
        pos (length bytes),
        record w {
          fs =
              set_content w.fs e.inode_idx
                (written (inode_at w.fs e.inode_idx).content e.offset bytes);
          table = set w.table fd (some (record e { offset = e.offset + length bytes }));
        },
      )

  unfoldable pub write_fd : World Disk → ℤ → List ℕ → ℤ × World Disk
  unfolding write_ram
  write_fd w fd bytes = if bad_fd fd then (ebadf, w) else elim (entry_at w.table (to_usize fd)) [
    | none ↦ (ebadf, w)
    | some e ↦ elim e.backend [
      | pipe ↦ let (r, pipes) = Pipe.write w.pipes e.raw_fd bytes in (r, record w { pipes = pipes })
      | fat16 ↦ let (r, disk) = fat_write w.disk e.raw_fd bytes in (r, record w { disk = disk })
      | ext2 ↦
          if not e.writable
          then (eacces, w)
          else (let (r, disk) = ext2_write w.disk e.raw_fd bytes in (r, record w { disk = disk }))
      | dev_null ↦ (pos (length bytes), w)
      | dev_tty ↦ (pos (length bytes), record w { disk = output_write w.disk bytes })
      | dir ↦ (eisdir, w)
      | ram_fs ↦ write_ram w (to_usize fd) e bytes
    ]
  ]

  -- What `dup2` closes at the new descriptor: an ext2 file is not among it.
  pub displace : World Disk → Option FdEntry → World Disk
  displace w none = w
  displace w (some old) = elim old.backend [
    | pipe ↦ record w { pipes = (Pipe.close w.pipes old.raw_fd).1 }
    | fat16 ↦ record w { disk = fat_close w.disk old.raw_fd }
    | _ ↦ w
  ]

  abbrev pub retain : World Disk → FdEntry → World Disk
  retain w e = if is_pipe e.backend then record w { pipes = Pipe.addref w.pipes e.raw_fd } else w

  pub dup2 : World Disk → ℤ → ℤ → ℤ × World Disk
  unfolding displace
  dup2 w old_fd new_fd =
      if bad_fd old_fd
      then (neg 5, w)
      else if bad_fd new_fd
      then (neg 5, w)
      else elim (entry_at w.table (to_usize old_fd)) [
        | none ↦ (neg 5, w)
        | some e ↦
            let w' = displace (retain w e) (entry_at w.table (to_usize new_fd)) in
            (new_fd, record w' { table = set w'.table (to_usize new_fd) (some e) })
      ]

-- One slot of `on_inode_removed`.
pub forget_inode : ℕ → Option FdEntry → Option FdEntry
forget_inode removed none = none
forget_inode removed (some e) =
    if not (is_ram_fs e.backend)
    then some e
    else if e.inode_idx == removed
    then none
    else if ltb removed e.inode_idx
    then some (record e { inode_idx = e.inode_idx - 1 })
    else some e

pub on_inode_removed : FdTable → ℕ → FdTable
unfolding forget_inode
on_inode_removed [] removed = []
on_inode_removed (slot ∷ t) removed = forget_inode removed slot ∷ on_inode_removed t removed
