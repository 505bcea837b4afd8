-- ===== src/Fs/FdTable/Tests.antt =====
-- The theorems on the descriptors at a small table.
use oxide_os.Prelude.{ℕ, none, some, [], ◌∷◌, ◌≡◌, ◌≢◌, ◌⊎◌, refl, pos, set, false, arith}
use oxide_os.Fs.RamFs.{RamFs, root_inode, new_file, inode_at, remove_file}
use oxide_os.Fs.FdTable.{FdTable, FdEntry, new, entry, ram_fs, entry_at, on_inode_removed}
use oxide_os.Fs.FdTable.Removed.{on_inode_removed-remove_file}

-- Two files, and a descriptor of the second one.
abbrev files : RamFs
files = root_inode ∷ new_file (b'a' ∷ []) 0 ∷ new_file (b'b' ∷ []) 0 ∷ []

abbrev of_second : FdEntry
of_second = entry ram_fs 2 (pos 0) 0 false false

abbrev table : FdTable
table = set new 3 (some of_second)

on_inode_removed-remove_file_example :
    ((1 ≡ of_second.inode_idx) × (entry_at (on_inode_removed table 1) 3 ≡ none))
    ⊎ (1 ≢ of_second.inode_idx
        × ((j : ℕ) × (entry_at (on_inode_removed table 1) 3
              ≡ some (record of_second { inode_idx = j }))
            × ((inode_at (remove_file files (b'a' ∷ [])).1 j).content ≡ (inode_at files 2).content)
            × ((inode_at (remove_file files (b'a' ∷ [])).1 j).kind ≡ (inode_at files 2).kind)
            × ((inode_at (remove_file files (b'a' ∷ [])).1 j).name ≡ (inode_at files 2).name)))
unfolding remove_file new
on_inode_removed-remove_file_example =
    on_inode_removed-remove_file files (b'a' ∷ []) 1 table 3 of_second refl refl refl (omega arith)
