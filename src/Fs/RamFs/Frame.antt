-- ===== src/Fs/RamFs/Frame.antt =====
-- What the operations on one file of the RAM file system leave alone, and what append_file and
-- truncate make of the file itself.
use oxide_os.Prelude.{
  ◌-◌, ◌≤◌, min, take, replicate, append-nil, ltb, length-take, ℕ, ◌<◌, false, Option, none, some,
  List, [], ◌∷◌, ◌++◌, ◌≡◌, ◌≢◌, inl, inr, refl, sym, ap, ◌∙◌, if◌then◌else◌, Bool-cases,
  Option-cases, length, get_or-set_ne, arith,
}
use oxide_os.Fs.Errors.{Result, ok}
use oxide_os.Fs.Path.{FilePath}
use oxide_os.Fs.RamFs.{
  RamFs, INode, inode_at, root_inode, new_file, is_directory, resolve, set_content, create_file,
  write_file, append_file, read_file, resized, truncate,
}
use oxide_os.Fs.RamFs.Resolve.{resolve-set_content, resolve-lt}
use oxide_os.Fs.RamFs.Push.{resolve-append}
use oxide_os.Fs.RamFs.Create.{
  Creates, refused, emptied, made, create_file-Creates, finished, write_file-finished,
  inode_at-append, read_file-set_content,
}

-- A path that led to inode `j` leads there still, and the inode is the same.
abbrev Keeps : FilePath → ℕ → RamFs → RamFs → Type 0
Keeps other j fs fs' = (resolve fs' other ≡ some j) × (inode_at fs' j ≡ inode_at fs j)

-- What a read gives is a matter of the lookup and the inode.
read-node : Option ℕ → INode → Option (List ℕ)
read-node none n = none
read-node (some i) n = if is_directory n.kind then none else some n.content

read_file-node :
    (fs : RamFs) (path : FilePath) (i : ℕ)
    → resolve fs path ≡ some i
    → read_file fs path ≡ read-node (some i) (inode_at fs i)
unfolding read_file read-node
read_file-node fs path i e = simp (read_file, e) refl

read_file-Keeps :
    (fs fs' : RamFs) (other : FilePath) (j : ℕ)
    → resolve fs other ≡ some j
    → Keeps other j fs fs'
    → read_file fs' other ≡ read_file fs other
read_file-Keeps fs fs' other j e (e', same) =
    read_file-node fs' other j e' ∙ ap (read-node (some j)) same ∙ sym (read_file-node fs other j e)

set_content-Keeps :
    (fs : RamFs) (other : FilePath) (i j : ℕ) (bytes : List ℕ)
    → resolve fs other ≡ some j
    → i ≢ j
    → Keeps other j fs (set_content fs i bytes)
set_content-Keeps fs other i j bytes e ne =
    (resolve-set_content fs i bytes other ∙ e, get_or-set_ne fs i j _ root_inode ne)

Keeps-trans :
    (fs fs' fs'' : RamFs) (other : FilePath) (j : ℕ)
    → Keeps other j fs fs'
    → Keeps other j fs' fs''
    → Keeps other j fs fs''
Keeps-trans fs fs' fs'' other j (_, s) (e, s') = (e, s' ∙ s)

finished-Keeps :
    (fs : RamFs) (path other : FilePath) (j : ℕ) (bytes : List ℕ) (r : Result ℕ × RamFs)
    → 0 < length fs
    → resolve fs other ≡ some j
    → resolve fs path ≢ some j
    → Creates fs path r
    → Keeps other j fs (finished bytes r).1
unfolding finished
finished-Keeps fs path other j bytes _ h e ne (refused x) = (e, refl)
finished-Keeps fs path other j bytes _ h e ne (emptied i at k) =
    let apart : i ≢ j = λ q. ne (at ∙ ap some q) in
    let first = set_content-Keeps fs other i j [] e apart in
    Keeps-trans fs (set_content fs i []) (set_content (set_content fs i []) i _) other j first
      (set_content-Keeps (set_content fs i []) other i j _ first.0 apart)
finished-Keeps fs path other j bytes _ h e ne (made dir name parent absent split at) =
    let lt = resolve-lt fs other h e in
    let more : RamFs = new_file name parent ∷ [] in
    let first : Keeps other j fs (fs ++ more) =
      (resolve-append fs more other j e, inode_at-append fs more j lt) in
    Keeps-trans fs (fs ++ more) (set_content (fs ++ more) (length fs) _) other j first (
      set_content-Keeps (fs ++ more) other (length fs) j _ first.0
        (λ q. absurd (omega (arith, q, lt))))

-- write_file, on every branch, leaves what is read through a path to another inode.
pub read_file-write_file_other :
    (fs : RamFs) (path other : FilePath) (j : ℕ) (bytes : List ℕ)
    → 0 < length fs
    → resolve fs other ≡ some j
    → resolve fs path ≢ some j
    → read_file (write_file fs path bytes).1 other ≡ read_file fs other
read_file-write_file_other fs path other j bytes h e ne =
    ap (λ r. read_file r.1 other) (write_file-finished fs path bytes)
    ∙ read_file-Keeps fs (finished bytes (create_file fs path)).1 other j e (
        finished-Keeps fs path other j bytes (create_file fs path) h e ne
          (create_file-Creates fs path))

-- A path that reads leads to a file with what was read.
read_file_back :
    (fs : RamFs) (path : FilePath) {old : List ℕ}
    → read_file fs path ≡ some old
    → (i : ℕ) × (resolve fs path ≡ some i)
      × (is_directory (inode_at fs i).kind ≡ false)
      × ((inode_at fs i).content ≡ old)
unfolding read_file read-node
read_file_back fs path {old} e = elim (Option-cases (resolve fs path)) [
  | inl q ↦ absurd (nothing (sym (simp (read_file, q) refl) ∙ e))
  | inr (i, q) ↦ elim (Bool-cases (is_directory (inode_at fs i).kind)) [
    | inl k ↦ absurd (nothing (sym (read_file-node fs path i q ∙ simp (read-node, k) refl) ∙ e))
    | inr k ↦ (i, q, k, same (sym (read_file-node fs path i q ∙ simp (read-node, k) refl) ∙ e))
  ]
]
  where
    nothing : ◌≢◌ {A = Option (List ℕ)} none (some old)
    nothing r = cc

    same : {c : List ℕ} → some c ≡ some old → c ≡ old
    same r = cc

-- append_file on a file that reads succeeds, and the file then reads as what it held with the new
-- bytes behind.
pub read_file-append_file :
    (fs : RamFs) (path : FilePath) (bytes old : List ℕ)
    → 0 < length fs
    → read_file fs path ≡ some old
    → ((append_file fs path bytes).0 ≡ ok tt)
      × (read_file (append_file fs path bytes).1 path ≡ some (old ++ bytes))
unfolding append_file
read_file-append_file fs path bytes old h e =
    let (i, q, k, c) = read_file_back fs path e in
    (
      simp (append_file, q, k) refl,
      simp (append_file, q, k)
          (read_file-set_content fs path i _ h q k ∙ ap (λ x. some (x ++ bytes)) c),
    )

-- The content cut to `n` bytes, or filled up with zeros.
abbrev pub fitted : ℕ → List ℕ → List ℕ
fitted n bytes = take n bytes ++ replicate (n - length bytes) 0

resized-fitted : (n : ℕ) (bytes : List ℕ) → resized n bytes ≡ fitted n bytes
resized-fitted n bytes = elim (Bool-cases (ltb (length (take n bytes)) n)) [
  | inl h ↦
      simp h
        (ap (λ k. take n bytes ++ replicate k 0) (short (ground (arith, h)) (length-take n bytes)))
  | inr h ↦ simp h (
      sym (append-nil (take n bytes))
      ∙ ap (λ k. take n bytes ++ replicate k 0) (long (ground (arith, h)) (length-take n bytes)))
]
  where
    short :
        length (take n bytes) < n
        → length (take n bytes) ≡ min n (length bytes)
        → n - length (take n bytes) ≡ n - length bytes
    short h e = omega (arith, h, e)

    long :
        n ≤ length (take n bytes)
        → length (take n bytes) ≡ min n (length bytes)
        → 0 ≡ n - length bytes
    long h e = omega (arith, h, e)

-- truncate on a file that reads succeeds, and the file then reads as what it held, cut or filled up
-- with zeros to the length.
pub read_file-truncate :
    (fs : RamFs) (path : FilePath) (n : ℕ) (old : List ℕ)
    → 0 < length fs
    → read_file fs path ≡ some old
    → ((truncate fs path n).0 ≡ ok tt)
      × (read_file (truncate fs path n).1 path ≡ some (fitted n old))
unfolding truncate
read_file-truncate fs path n old h e =
    let (i, q, k, c) = read_file_back fs path e in
    (
      simp (truncate, q, k) refl,
      simp (truncate, q, k)
          (read_file-set_content fs path i _ h q k
            ∙ ap some (resized-fitted n (inode_at fs i).content ∙ ap (fitted n) c)),
    )
