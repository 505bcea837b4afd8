-- ===== src/Fs/RamFs.antt =====
-- kernel/src/kernel/fs/ramfs.rs, the struct RamFs: a tree of inodes in a flat vector, each with the
-- index of its parent. A path and a name are lists of bytes. A method with `&mut self` returns the
-- new file system beside its result, also where it fails.
pub mod Resolve
pub mod Push
pub mod Create
pub mod Frame
pub mod Remove
mod Tests
use mathlib.Core.Option
use oxide_os.Prelude.{
  ℕ, zero, suc, ◌+◌, ◌-◌, ◌^◌, Bool, true, false, not, ◌&&◌, ◌||◌, Option, none, some, List, [],
  ◌∷◌, ◌++◌, map, ltb, ◌==◌, if◌then◌else◌, is_some, ℤ, pos, neg, length, get_or, set, take,
  replicate, find_index, codes,
}
use oxide_os.Fs.Errors.{Result, ok, err, enoent, eexist, eisdir, enotdir, einval}
use oxide_os.Fs.Path.{
  FilePath, slash, root_path, is_nil, text_eq, split_slash, strip_slash, split_path,
}

-- `usize::MAX`
abbrev pub root_parent : ℕ
root_parent = 2 ^ 64 - 1

pub data NodeKind : Type 0 where
  file directory : NodeKind

abbrev pub is_directory : NodeKind → Bool
is_directory file = false
is_directory directory = true

-- The field `data` of the source is `content` here.
pub record INode : Type 0 where
  pub name : FilePath
  pub parent_idx : ℕ
  pub kind : NodeKind
  pub content : List ℕ
  pub mode : ℕ
  pub uid : ℕ
  pub gid : ℕ

abbrev pub RamFs : Type 0
RamFs = List INode

abbrev pub new_directory : FilePath → ℕ → INode
new_directory name parent = record {
  name = name;
  parent_idx = parent;
  kind = directory;
  content = [];
  mode = 0o755;
  uid = 0;
  gid = 0;
}

abbrev pub new_file : FilePath → ℕ → INode
new_file name parent = record {
  name = name;
  parent_idx = parent;
  kind = file;
  content = [];
  mode = 0o644;
  uid = 0;
  gid = 0;
}

abbrev pub root_inode : INode
root_inode = new_directory root_path root_parent

-- `self.inodes[i]`; every index that the code uses is inside the vector.
abbrev pub inode_at : RamFs → ℕ → INode
inode_at fs i = get_or fs i root_inode

abbrev pub is_child : ℕ → FilePath → INode → Bool
is_child parent name n = n.parent_idx == parent && text_eq n.name name

pub find_child : RamFs → ℕ → FilePath → Option ℕ
unfolding find_index text_eq
find_child fs parent name = find_index (is_child parent name) fs

-- The loop of `resolve` over the parts of the path.
pub resolve_from : RamFs → ℕ → List FilePath → Option ℕ
unfolding find_child
resolve_from fs cur [] = some cur
resolve_from fs cur (part ∷ parts) =
    elim (if is_nil part then some cur else find_child fs cur part) [
      | none ↦ none
      | some next ↦ resolve_from fs next parts
    ]

pub resolve : RamFs → FilePath → Option ℕ
unfolding resolve_from text_eq split_slash strip_slash
resolve fs path =
    if text_eq path root_path || is_nil path
    then some 0
    else resolve_from fs 0 (split_slash (strip_slash path))

-- The common end of `create_dir` and `create_file`: the parent is looked up and checked, and the
-- inode that `make` gives for the name and the parent is pushed.
pub push_node : RamFs → FilePath → (FilePath → ℕ → INode) → Result ℕ × RamFs
unfolding resolve split_path
push_node fs path make = elim (split_path path) [
  | none ↦ (err einval, fs)
  | some (parent_path, name) ↦ elim (resolve fs parent_path) [
    | none ↦ (err enoent, fs)
    | some parent ↦
        if not (is_directory (inode_at fs parent).kind)
        then (err enotdir, fs)
        else (ok (length fs), fs ++ (make name parent ∷ []))
  ]
]

pub create_dir : RamFs → FilePath → Result ℕ × RamFs
unfolding resolve push_node
create_dir fs path =
    if is_some (resolve fs path) then (err eexist, fs) else push_node fs path new_directory

-- A file's content replaced.
abbrev pub set_content : RamFs → ℕ → List ℕ → RamFs
set_content fs idx bytes = set fs idx (record (inode_at fs idx) { content = bytes })

pub create_file : RamFs → FilePath → Result ℕ × RamFs
unfolding resolve push_node
create_file fs path = elim (resolve fs path) [
  | some idx ↦
      if is_directory (inode_at fs idx).kind
      then (err eisdir, fs)
      else (ok idx, set_content fs idx [])
  | none ↦ push_node fs path new_file
]

unfoldable pub write_file : RamFs → FilePath → List ℕ → Result (Unit {0}) × RamFs
unfolding create_file
write_file fs path bytes =
    let (r, fs') = create_file fs path in
    elim r [
      | err e ↦ (err e, fs')
      | ok idx ↦ (ok tt, set_content fs' idx ((inode_at fs' idx).content ++ bytes))
    ]

pub append_file : RamFs → FilePath → List ℕ → Result (Unit {0}) × RamFs
unfolding resolve write_file
append_file fs path bytes = elim (resolve fs path) [
  | some idx ↦
      if is_directory (inode_at fs idx).kind
      then (err eisdir, fs)
      else (ok tt, set_content fs idx ((inode_at fs idx).content ++ bytes))
  | none ↦ write_file fs path bytes
]

unfoldable pub read_file : RamFs → FilePath → Option (List ℕ)
unfolding resolve
read_file fs path = elim (resolve fs path) [
  | none ↦ none
  | some idx ↦ if is_directory (inode_at fs idx).kind then none else some (inode_at fs idx).content
]

pub file_size : RamFs → FilePath → Option ℕ
unfolding resolve
file_size fs path = elim (resolve fs path) [
  | none ↦ none
  | some idx ↦
      if is_directory (inode_at fs idx).kind then none else some (length (inode_at fs idx).content)
]

-- The listing of a directory.
children : ℕ → RamFs → List (FilePath × NodeKind)
children dir [] = []
children dir (n ∷ ns) =
    let rest = children dir ns in if n.parent_idx == dir then (n.name, n.kind) ∷ rest else rest

pub list_dir : RamFs → FilePath → Option (List (FilePath × NodeKind))
unfolding resolve children
list_dir fs path = elim (resolve fs path) [
  | none ↦ none
  | some dir ↦ if not (is_directory (inode_at fs dir).kind) then none else some (children dir fs)
]

-- The parent index of a node after the inode `idx` is taken out.
pub shift_parent : ℕ → INode → INode
shift_parent idx n =
    if not (n.parent_idx == root_parent) && ltb idx n.parent_idx
    then record n { parent_idx = n.parent_idx - 1 }
    else n

-- `Vec::remove`
pub remove_at : ℕ → RamFs → RamFs
remove_at i [] = []
remove_at zero (n ∷ ns) = ns
remove_at (suc i) (n ∷ ns) = n ∷ remove_at i ns

unfoldable pub remove_file : RamFs → FilePath → Result ℕ × RamFs
unfolding resolve shift_parent remove_at
remove_file fs path = elim (resolve fs path) [
  | none ↦ (err enoent, fs)
  | some idx ↦
      if is_directory (inode_at fs idx).kind
      then (err eisdir, fs)
      else (ok idx, remove_at idx (map (shift_parent idx) fs))
]

-- The parent directory of a new name: the root is not looked up.
new_parent : RamFs → FilePath → Option ℕ
unfolding resolve
new_parent fs dir = if text_eq dir root_path || is_nil dir then some 0 else resolve fs dir

-- `rename` from where the destination is out of the way.
pub rename_end : RamFs → FilePath → FilePath → Result (Unit {0}) × RamFs
unfolding resolve split_path new_parent
rename_end fs old_path new_path = elim (resolve fs old_path) [
  | none ↦ (err enoent, fs)
  | some idx ↦ elim (split_path new_path) [
    | none ↦ (err einval, fs)
    | some (dir, name) ↦ elim (new_parent fs dir) [
      | none ↦ (err enoent, fs)
      | some parent ↦
          (ok tt, set fs idx (record (inode_at fs idx) { name = name; parent_idx = parent }))
    ]
  ]
]

pub rename : RamFs → FilePath → FilePath → Result (Unit {0}) × RamFs
unfolding resolve remove_file rename_end
rename fs old_path new_path = elim (resolve fs old_path) [
  | none ↦ (err enoent, fs)
  | some idx ↦
      if is_directory (inode_at fs idx).kind then (err eisdir, fs) else elim (resolve fs new_path) [
        | none ↦ rename_end fs old_path new_path
        | some _ ↦
            let (r, fs') = remove_file fs new_path in
            elim r [ err e ↦ (err e, fs') | ok _ ↦ rename_end fs' old_path new_path ]
      ]
]

-- `truncate(n)` and, where that leaves fewer than `n` bytes, `resize(n, 0)`.
abbrev pub resized : ℕ → List ℕ → List ℕ
resized n bytes =
    let kept = take n bytes in
    if ltb (length kept) n then kept ++ replicate (n - length kept) 0 else kept

pub truncate : RamFs → FilePath → ℕ → Result (Unit {0}) × RamFs
unfolding resolve
truncate fs path n = elim (resolve fs path) [
  | none ↦ (err enoent, fs)
  | some idx ↦
      if is_directory (inode_at fs idx).kind
      then (err eisdir, fs)
      else (ok tt, set_content fs idx (resized n (inode_at fs idx).content))
]

pub truncate_by_idx : RamFs → ℕ → ℕ → RamFs
truncate_by_idx fs idx n =
    if ltb idx (length fs) then set_content fs idx (resized n (inode_at fs idx).content) else fs

pub exists : RamFs → FilePath → Bool
unfolding resolve
exists fs path = is_some (resolve fs path)

pub is_dir : RamFs → FilePath → Bool
unfolding resolve
is_dir fs path = elim (resolve fs path) [
  | none ↦ false
  | some idx ↦ is_directory (inode_at fs idx).kind
]

-- The bytes of a directory entry: its name, `/` behind that of a directory, and a line feed.
entry_bytes : INode → List ℕ
entry_bytes n = n.name ++ ((if is_directory n.kind then root_path else []) ++ (b'\n' ∷ []))

-- The loop of `read_dir_raw` with `room` bytes left in the buffer: what it writes there.
pub read_dir_loop : ℕ → ℕ → List INode → List ℕ
unfolding entry_bytes
read_dir_loop dir room [] = []
read_dir_loop dir room (n ∷ ns) =
    let entry = entry_bytes n in
    let skipped = read_dir_loop dir room ns in
    let written = entry ++ read_dir_loop dir (room - length entry) ns in
    if n.parent_idx == dir then (if ltb room (length entry) then [] else written) else skipped

pub read_dir_raw : RamFs → FilePath → ℕ → ℤ × List ℕ
unfolding resolve read_dir_loop
read_dir_raw fs path room = elim (resolve fs path) [
  | none ↦ (neg 7, [])
  | some dir ↦
      if not (is_directory (inode_at fs dir).kind)
      then (neg 1, [])
      else (let bytes = read_dir_loop dir room fs in (pos (length bytes), bytes))
]

-- The file system at boot, with the text of the version, which the build makes.
pub new : List ℕ → RamFs
unfolding create_dir write_file
new version =
    let fs0 : RamFs = root_inode ∷ [] in
    let fs1 = (create_dir fs0 (codes "/etc")).1 in
    let fs2 = (create_dir fs1 (codes "/tmp")).1 in
    let fs3 = (create_dir fs2 (codes "/home")).1 in
    let fs4 = (create_dir fs3 (codes "/bin")).1 in
    let fs5 = (write_file fs4 (codes "/etc/hostname") (codes "oxideos\n")).1 in
    let fs6 = (write_file fs5 (codes "/etc/version") version).1 in
    (write_file fs6 (codes "/etc/motd")
      (codes "Welcome to OxideOS!\nType 'help' in the terminal for commands.\n")).1
