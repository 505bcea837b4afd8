-- ===== src/Fs/RamFs/Remove.antt =====
-- `remove_file` of the RAM file system: which inode it takes out, and where the others are then.
use oxide_os.Prelude.{
  ℕ, zero, suc, ◌-◌, ◌<◌, false, some, [], ◌∷◌, ◌≡◌, ◌≢◌, inl, inr, refl, sym, ap, ◌∙◌, map, ltb,
  if◌then◌else◌, Bool-cases, Option-cases, ℤ, length, arith,
}
use oxide_os.Fs.Errors.{Result, ok, err, enoent, eisdir}
use oxide_os.Fs.Path.{FilePath}
use oxide_os.Fs.RamFs.{
  RamFs, INode, inode_at, is_directory, resolve, shift_parent, remove_at, remove_file,
}

-- The new index of inode `j` when inode `i` is gone.
abbrev pub moved : ℕ → ℕ → ℕ
moved i j = if ltb i j then j - 1 else j

inode_at-map :
    (f : INode → INode) (fs : RamFs) (j : ℕ)
    → j < length fs
    → inode_at (map f fs) j ≡ f (inode_at fs j)
inode_at-map f [] j h = absurd (omega arith)
inode_at-map f (n ∷ fs) zero h = refl
inode_at-map f (n ∷ fs) (suc j) h = inode_at-map f fs j (omega arith)

length-map : (f : INode → INode) (fs : RamFs) → length (map f fs) ≡ length fs
length-map f [] = refl
length-map f (n ∷ fs) = ap suc (length-map f fs)

remove_at-before : (fs : RamFs) (i j : ℕ) → j < i → inode_at (remove_at i fs) j ≡ inode_at fs j
unfolding remove_at
remove_at-before [] i j h = refl
remove_at-before (n ∷ fs) zero j h = absurd (omega arith)
remove_at-before (n ∷ fs) (suc i) zero h = refl
remove_at-before (n ∷ fs) (suc i) (suc j) h = remove_at-before fs i j (omega arith)

remove_at-behind :
    (fs : RamFs) (i j : ℕ) → i < suc j → inode_at (remove_at i fs) j ≡ inode_at fs (suc j)
unfolding remove_at
remove_at-behind [] i j h = refl
remove_at-behind (n ∷ fs) zero j h = refl
remove_at-behind (n ∷ fs) (suc i) zero h = absurd (omega arith)
remove_at-behind (n ∷ fs) (suc i) (suc j) h = remove_at-behind fs i j (omega arith)

remove_at-moved :
    (fs : RamFs) (i j : ℕ) → i ≢ j → inode_at (remove_at i fs) (moved i j) ≡ inode_at fs j
remove_at-moved fs i j ne = elim (Bool-cases (ltb i j)) [
  | inl e ↦ simp e (behind j (ground (arith, e)))
  | inr e ↦ simp e (remove_at-before fs i j (below e))
]
  where
    pred : (k : ℕ) → suc k - 1 ≡ k
    pred k = omega arith

    behind : (k : ℕ) → i < k → inode_at (remove_at i fs) (k - 1) ≡ inode_at fs k
    behind zero h = absurd (omega arith)
    behind (suc k) h = ap (inode_at (remove_at i fs)) (pred k) ∙ remove_at-behind fs i k h

    below : ltb i j ≡ false → j < i
    below e = ground (arith, e, ne)

-- What remove_file does when it succeeds.
pub remove_file_ok :
    (fs : RamFs) (path : FilePath) (i : ℕ)
    → (remove_file fs path).0 ≡ ok i
    → (resolve fs path ≡ some i)
      × (is_directory (inode_at fs i).kind ≡ false)
      × ((remove_file fs path).1 ≡ remove_at i (map (shift_parent i) fs))
unfolding remove_file
remove_file_ok fs path i e = elim (Option-cases (resolve fs path)) [
  | inl q ↦ absurd (err-ok {x = enoent} (sym (simp (remove_file, q) refl) ∙ e))
  | inr (k, q) ↦ elim (Bool-cases (is_directory (inode_at fs k).kind)) [
    | inl d ↦ absurd (err-ok {x = eisdir} (sym (simp (remove_file, q, d) refl) ∙ e))
    | inr d ↦
        let same : k ≡ i = ok-inj (sym (simp (remove_file, q, d) refl) ∙ e) in
        (
          q ∙ ap some same,
          sym (ap (λ n. is_directory (inode_at fs n).kind) same) ∙ d,
          simp (remove_file, q, d) (ap (λ n. remove_at n (map (shift_parent n) fs)) same),
        )
  ]
]
  where
    err-ok : {x : ℤ} → ◌≢◌ {A = Result ℕ} (err x) (ok i)
    err-ok r = cc

    ok-inj : {k : ℕ} → ◌≡◌ {A = Result ℕ} (ok k) (ok i) → k ≡ i
    ok-inj r = cc

-- The other inodes after a removal.
pub inode_at-removed :
    (fs : RamFs) (path : FilePath) (i j : ℕ)
    → (remove_file fs path).0 ≡ ok i
    → i ≢ j
    → j < length fs
    → inode_at (remove_file fs path).1 (moved i j) ≡ shift_parent i (inode_at fs j)
inode_at-removed fs path i j e ne h =
    ap (λ r. inode_at r (moved i j)) (remove_file_ok fs path i e).2
    ∙ remove_at-moved (map (shift_parent i) fs) i j ne
    ∙ inode_at-map (shift_parent i) fs j h

pub shift_parent-same :
    (i : ℕ) (n : INode)
    → ((shift_parent i n).content ≡ n.content)
      × ((shift_parent i n).kind ≡ n.kind)
      × ((shift_parent i n).name ≡ n.name)
unfolding shift_parent
shift_parent-same i n = ground arith
