-- ===== src/Fs/Mbr/Install.antt =====
-- What the parser makes of the sector that the installer writes.
use oxide_os.Prelude.{
  ℕ, ◌≤◌, ◌≡◌, refl, min, Bool, true, false, ◌||◌, ◌==◌, if◌then◌else◌, ltb, List, length, none,
  some, Bool-cases, inl, inr, arith,
}
use oxide_os.Fs.Mbr.{
  new, parsed, entry_at, has_any, init, is_fat16, first_fat16, fat16_lba_offset, first_linux,
  ext2_lba_offset, bootstrap, write_mbr, write_part_entry, put_word, data_part_start,
}

-- Behind its 440 bytes the boot loader's code leaves zeros.
zeros : (code : List ℕ) (j : ℕ) → 440 ≤ j → bootstrap code j ≡ 0
unfolding bootstrap
zeros code j h = simp outside refl
  where
    outside : ltb j (min (length code) 440) ≡ false
    outside = ground (arith, h)

-- The boot loader's code begins with a jump.
abbrev pub starts_with_jump : List ℕ → Bool
starts_with_jump code = let b = bootstrap code 0 in b == 0xEB || b == 0xE9

-- After an installation the data partition is found where the installer put it, and no ext2
-- partition, if the boot loader's code does not begin with a jump; if it does, the disk is taken for
-- one file system from its first sector on.
pub init-write_mbr :
    (code : List ℕ)
    → let mbr = init new true (some (write_mbr code)) in
      (fat16_lba_offset mbr ≡ (if starts_with_jump code then 0 else data_part_start))
      × (ext2_lba_offset mbr ≡ none)
unfolding init write_mbr write_part_entry put_word parsed entry_at has_any first_fat16
    fat16_lba_offset first_linux ext2_lba_offset is_fat16
init-write_mbr code = elim (Bool-cases (starts_with_jump code)) [
  | inl e ↦ simp e (refl, refl)
  | inr e ↦ simp (e, zeros code 482 (omega arith), zeros code 498 (omega arith)) (refl, refl)
]
