-- ===== src/Fs/RamFs/Create.antt =====
-- `create_file` and `write_file` of the RAM file system: their outcomes, and what is read back
-- through the path.
use oxide_os.Prelude.{
  ℕ, zero, suc, ◌<◌, false, none, some, List, [], ◌∷◌, ◌++◌, ◌≡◌, ◌≢◌, inl, inr, refl, sym, ap, ◌∙◌,
  Bool-cases, Option-cases, ℤ, length, length-set, length-append, get_or-set_self, arith,
}
use oxide_os.Fs.Errors.{Result, ok, err, enoent, eisdir, enotdir, einval}
use oxide_os.Fs.Path.{FilePath, split_path}
use oxide_os.Fs.RamFs.{
  RamFs, INode, inode_at, root_inode, new_file, is_directory, resolve, push_node, set_content,
  create_file, write_file, read_file,
}
use oxide_os.Fs.RamFs.Resolve.{resolve-set_content, resolve-lt}
use oxide_os.Fs.RamFs.Push.{resolve-pushed}

-- What a lookup gives: nothing, or an inode that is a file or a directory.
abbrev pub IsFile : RamFs → ℕ → Type 0
IsFile fs i = is_directory (inode_at fs i).kind ≡ false

-- The outcomes of `create_file`.
pub data Creates (fs : RamFs) (path : FilePath) : Result ℕ × RamFs → Type 0 where
  refused : (e : ℤ) → Creates fs path (err e, fs)
  emptied :
      (i : ℕ) → resolve fs path ≡ some i → IsFile fs i → Creates fs path (ok i, set_content fs i [])
  made :
      (dir name : FilePath) (parent : ℕ)
      → resolve fs path ≡ none
      → split_path path ≡ some (dir, name)
      → resolve fs dir ≡ some parent
      → Creates fs path (ok (length fs), fs ++ (new_file name parent ∷ []))

push_node-Creates :
    (fs : RamFs) (path : FilePath)
    → resolve fs path ≡ none
    → Creates fs path (push_node fs path new_file)
unfolding push_node
push_node-Creates fs path absent = elim (Option-cases (split_path path)) [
  | inl e ↦ simp (push_node, e) (refused einval)
  | inr (split, e) ↦ elim (Option-cases (resolve fs split.0)) [
    | inl q ↦ simp (push_node, e, q) (refused enoent)
    | inr (parent, q) ↦ elim (Bool-cases (is_directory (inode_at fs parent).kind)) [
      | inl k ↦ simp (push_node, e, q, k) (made split.0 split.1 parent absent e q)
      | inr k ↦ simp (push_node, e, q, k) (refused enotdir)
    ]
  ]
]

pub create_file-Creates : (fs : RamFs) (path : FilePath) → Creates fs path (create_file fs path)
unfolding create_file
create_file-Creates fs path = elim (Option-cases (resolve fs path)) [
  | inl e ↦ simp (create_file, e) (push_node-Creates fs path e)
  | inr (i, e) ↦ elim (Bool-cases (is_directory (inode_at fs i).kind)) [
    | inl k ↦ simp (create_file, e, k) (refused eisdir)
    | inr k ↦ simp (create_file, e, k) (emptied i e k)
  ]
]

-- What is read through a path that leads to a file.
pub read_file_at :
    (fs : RamFs) (path : FilePath) (i : ℕ)
    → resolve fs path ≡ some i
    → IsFile fs i
    → read_file fs path ≡ some (inode_at fs i).content
unfolding read_file
read_file_at fs path i e k = simp (read_file, e, k) refl

pub read_file-set_content :
    (fs : RamFs) (path : FilePath) (i : ℕ) (bytes : List ℕ)
    → 0 < length fs
    → resolve fs path ≡ some i
    → IsFile fs i
    → read_file (set_content fs i bytes) path ≡ some bytes
read_file-set_content fs path i bytes h e k =
    read_file_at (set_content fs i bytes) path i (resolve-set_content fs i bytes path ∙ e)
      (ap (λ n. is_directory (INode.kind n)) here ∙ k)
    ∙ ap (λ n. some (INode.content n)) here
  where
    here : inode_at (set_content fs i bytes) i ≡ record (inode_at fs i) { content = bytes }
    here = get_or-set_self fs i _ root_inode (resolve-lt fs path h e)

-- The end of `write_file`.
unfoldable pub finished : List ℕ → Result ℕ × RamFs → Result (Unit {0}) × RamFs
finished bytes (err e, fs) = (err e, fs)
finished bytes (ok i, fs) = (ok tt, set_content fs i ((inode_at fs i).content ++ bytes))

pub write_file-finished :
    (fs : RamFs) (path : FilePath) (bytes : List ℕ)
    → write_file fs path bytes ≡ finished bytes (create_file fs path)
unfolding write_file finished
write_file-finished fs path bytes = go (create_file fs path)
  where
    go :
        (r : Result ℕ × RamFs)
        → ◌≡◌ {A = Result (Unit {0}) × RamFs}
            (elim r.0 [
              | err e ↦ (err e, r.1)
              | ok i ↦ (ok tt, set_content r.1 i ((inode_at r.1 i).content ++ bytes))
            ])
            (finished bytes r)
    go (err e, fs') = refl
    go (ok i, fs') = refl

-- The pushed node is at the end.
get_or-append_end : (fs : RamFs) (n : INode) → inode_at (fs ++ (n ∷ [])) (length fs) ≡ n
get_or-append_end [] n = refl
get_or-append_end (m ∷ fs) n = get_or-append_end fs n

pub inode_at-append :
    (fs more : RamFs) (i : ℕ) → i < length fs → inode_at (fs ++ more) i ≡ inode_at fs i
inode_at-append [] more i h = absurd (omega arith)
inode_at-append (m ∷ fs) more zero h = refl
inode_at-append (m ∷ fs) more (suc i) h = inode_at-append fs more i (omega arith)

read-fill :
    (fs : RamFs) (path : FilePath) (i : ℕ) (bytes : List ℕ)
    → 0 < length fs
    → resolve fs path ≡ some i
    → IsFile fs i
    → (inode_at fs i).content ≡ []
    → read_file (set_content fs i ((inode_at fs i).content ++ bytes)) path ≡ some bytes
read-fill fs path i bytes h e k q =
    ap (λ c. read_file (set_content fs i (c ++ bytes)) path) q
    ∙ read_file-set_content fs path i bytes h e k

err-ne-ok : {e : ℤ} → ◌≢◌ {A = Result (Unit {0})} (err e) (ok tt)
err-ne-ok q = cc

read-finished :
    (fs : RamFs) (path : FilePath) (bytes : List ℕ) (r : Result ℕ × RamFs)
    → 0 < length fs
    → Creates fs path r
    → (finished bytes r).0 ≡ ok tt
    → read_file (finished bytes r).1 path ≡ some bytes
unfolding finished
read-finished fs path bytes _ h (refused e) q = absurd (err-ne-ok q)
read-finished fs path bytes _ h (emptied i e k) q =
    read-fill (set_content fs i []) path i bytes (omega (arith, length-set fs i _))
      (resolve-set_content fs i [] path ∙ e) (ap (λ n. is_directory (INode.kind n)) here ∙ k)
      (ap INode.content here)
  where
    here : inode_at (set_content fs i []) i ≡ record (inode_at fs i) { content = [] }
    here = get_or-set_self fs i _ root_inode (resolve-lt fs path h e)
read-finished fs path bytes _ h (made dir name parent absent split at) q =
    read-fill (fs ++ (node ∷ [])) path (length fs) bytes
      (omega (arith, length-append fs (node ∷ [])))
      (resolve-pushed fs path dir name parent node absent split at refl refl)
      (ap (λ n. is_directory (INode.kind n)) (get_or-append_end fs node))
      (ap INode.content (get_or-append_end fs node))
  where
    node : INode
    node = new_file name parent

-- What a successful write_file stores, in a new or an old file, is what read_file returns for the
-- same path, in a file system that has its root.
pub read_file-write_file :
    (fs : RamFs) (path : FilePath) (bytes : List ℕ)
    → 0 < length fs
    → (write_file fs path bytes).0 ≡ ok tt
    → read_file (write_file fs path bytes).1 path ≡ some bytes
read_file-write_file fs path bytes h q =
    ap (λ r. read_file r.1 path) (write_file-finished fs path bytes)
    ∙ read-finished fs path bytes (create_file fs path) h (create_file-Creates fs path)
        (sym (ap (λ r. r.0) (write_file-finished fs path bytes)) ∙ q)
