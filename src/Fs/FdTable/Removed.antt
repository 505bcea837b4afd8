-- ===== src/Fs/FdTable/Removed.antt =====
-- The descriptors of a task after a file is removed: remove_file moves the inodes, and
-- on_inode_removed moves what the descriptors refer to.
use oxide_os.Prelude.{
  ℕ, zero, suc, ◌<◌, true, false, none, some, [], ◌∷◌, ◌≡◌, ◌≢◌, ◌⊎◌, inl, inr, refl, sym, ap, ◌∙◌,
  ltb, ◌==◌, ==_iff, Bool-cases, length, arith,
}
use oxide_os.Fs.Errors.{ok}
use oxide_os.Fs.Path.{FilePath}
use oxide_os.Fs.RamFs.{RamFs, INode, inode_at, shift_parent, remove_file}
use oxide_os.Fs.RamFs.Remove.{moved, inode_at-removed, shift_parent-same}
use oxide_os.Fs.FdTable.{FdTable, FdEntry, is_ram_fs, entry_at, forget_inode, on_inode_removed}

on_inode_removed-at :
    (t : FdTable) (removed fd : ℕ)
    → entry_at (on_inode_removed t removed) fd ≡ forget_inode removed (entry_at t fd)
unfolding on_inode_removed forget_inode
on_inode_removed-at [] removed fd = refl
on_inode_removed-at (slot ∷ t) removed zero = refl
on_inode_removed-at (slot ∷ t) removed (suc fd) = on_inode_removed-at t removed fd

forget_inode-other :
    (removed : ℕ) (e : FdEntry)
    → removed ≢ e.inode_idx
    → is_ram_fs e.backend ≡ true
    → forget_inode removed (some e) ≡ some (record e { inode_idx = moved removed e.inode_idx })
unfolding forget_inode
forget_inode-other removed e ne b =
    simp (b, not_same)
      (elim (Bool-cases (ltb removed e.inode_idx)) [ inl h ↦ simp h refl | inr h ↦ simp h refl ])
  where
    not_same : (e.inode_idx == removed) ≡ false
    not_same = ground (arith, ne)

-- After remove_file, with on_inode_removed on a table: a descriptor of the removed inode is closed,
-- and a descriptor of another one is the same but for its index, at which there is an inode with
-- the name, kind and content of the one before.
pub on_inode_removed-remove_file :
    (fs : RamFs) (path : FilePath) (removed : ℕ) (t : FdTable) (fd : ℕ) (e : FdEntry)
    → (remove_file fs path).0 ≡ ok removed
    → entry_at t fd ≡ some e
    → is_ram_fs e.backend ≡ true
    → e.inode_idx < length fs
    → ((removed ≡ e.inode_idx) × (entry_at (on_inode_removed t removed) fd ≡ none))
      ⊎ (removed ≢ e.inode_idx
          × ((j : ℕ) × (entry_at (on_inode_removed t removed) fd
                ≡ some (record e { inode_idx = j }))
              × ((inode_at (remove_file fs path).1 j).content ≡ (inode_at fs e.inode_idx).content)
              × ((inode_at (remove_file fs path).1 j).kind ≡ (inode_at fs e.inode_idx).kind)
              × ((inode_at (remove_file fs path).1 j).name ≡ (inode_at fs e.inode_idx).name)))
unfolding forget_inode
on_inode_removed-remove_file fs path removed t fd e ok_removed at b h =
    elim (Bool-cases (e.inode_idx == removed)) [
      | inl q ↦ inl (
        sym ((==_iff e.inode_idx removed).0 q),
        on_inode_removed-at t removed fd ∙ ap (forget_inode removed) at ∙ simp (b, q) refl,
      )
      | inr q ↦ inr (
        apart q,
        (
          moved removed e.inode_idx,
          on_inode_removed-at t removed fd
              ∙ ap (forget_inode removed) at
              ∙ forget_inode-other removed e (apart q) b,
          ap INode.content (there q) ∙ same.0,
          ap INode.kind (there q) ∙ same.1,
          ap INode.name (there q) ∙ same.2,
        ),
      )
    ]
  where
    same :
        ((shift_parent removed (inode_at fs e.inode_idx)).content
          ≡ (inode_at fs e.inode_idx).content)
        × ((shift_parent removed (inode_at fs e.inode_idx)).kind ≡ (inode_at fs e.inode_idx).kind)
        × ((shift_parent removed (inode_at fs e.inode_idx)).name ≡ (inode_at fs e.inode_idx).name)
    same = shift_parent-same removed (inode_at fs e.inode_idx)

    apart : (e.inode_idx == removed) ≡ false → removed ≢ e.inode_idx
    apart q = ground (arith, q)

    there :
        (e.inode_idx == removed) ≡ false
        → inode_at (remove_file fs path).1 (moved removed e.inode_idx)
          ≡ shift_parent removed (inode_at fs e.inode_idx)
    there q = inode_at-removed fs path removed e.inode_idx ok_removed (apart q) h
