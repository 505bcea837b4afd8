-- ===== src/Fs/Mbr/Tests.antt =====
-- The sector of an installation with a boot loader that begins with `xor ax, ax`, and with one that
-- begins with a jump.
use oxide_os.Prelude.{ℕ, ◌≡◌, refl, true, some, none, [], ◌∷◌, if◌then◌else◌, List}
use oxide_os.Fs.Mbr.{
  new, init, parsed, entry_at, has_any, is_fat16, first_fat16, fat16_lba_offset, ext2_lba_offset,
  bootstrap, write_mbr, write_part_entry, put_word, data_part_start,
}
use oxide_os.Fs.Mbr.Install.{starts_with_jump, init-write_mbr}

abbrev plain_code : List ℕ
plain_code = 0x31 ∷ 0xC0 ∷ []

abbrev jump_code : List ℕ
jump_code = 0xEB ∷ 0x3C ∷ []

finds_data : fat16_lba_offset (init new true (some (write_mbr plain_code))) ≡ 133120
unfolding init write_mbr write_part_entry put_word parsed entry_at has_any first_fat16
    fat16_lba_offset is_fat16 bootstrap
finds_data = refl

jump_hides_data : fat16_lba_offset (init new true (some (write_mbr jump_code))) ≡ 0
unfolding init write_mbr write_part_entry put_word bootstrap fat16_lba_offset
jump_hides_data = refl

init-write_mbr_example :
    let mbr = init new true (some (write_mbr plain_code)) in
    (fat16_lba_offset mbr ≡ (if starts_with_jump plain_code then 0 else data_part_start))
    × (ext2_lba_offset mbr ≡ none)
init-write_mbr_example = init-write_mbr plain_code
