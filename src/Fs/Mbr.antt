-- ===== src/Fs/Mbr.antt =====
-- kernel/src/kernel/fs/mbr.rs: the partition table of a disk, and kernel/src/kernel/installer.rs: the
-- sector that the installer writes. A sector is a function from an index to a byte. The disk
-- driver is a parameter: whether a disk is present, and the sector read, if it could be. The boot
-- loader's code in the sector is a parameter too.
pub mod Install
mod Tests
use oxide_os.Prelude.{
  ℕ, ◌+◌, ◌-◌, ◌*◌, ◌/◌, ◌%◌, ◌^◌, min, Bool, true, false, not, ◌&&◌, ◌||◌, Option, none, some,
  List, [], ◌∷◌, ltb, leb, ◌==◌, if◌then◌else◌, length, get_or,
}

abbrev pub ptype_fat16_small : ℕ
ptype_fat16_small = 0x04

abbrev pub ptype_fat16_large : ℕ
ptype_fat16_large = 0x06

abbrev pub ptype_fat16_lba : ℕ
ptype_fat16_lba = 0x0E

abbrev pub ptype_linux : ℕ
ptype_linux = 0x83

abbrev pub Sector : Type 0
Sector = ℕ → ℕ

pub record PartEntry : Type 0 where
  pub status : ℕ
  pub partition_type : ℕ
  pub start_lba : ℕ
  pub size_sectors : ℕ

unfoldable pub empty : PartEntry
empty = record { status = 0; partition_type = 0; start_lba = 0; size_sectors = 0 }

unfoldable pub is_empty : PartEntry → Bool
is_empty e = e.partition_type == 0 && e.start_lba == 0

pub record MbrState : Type 0 where
  pub entries : List PartEntry
  pub whole_disk : Bool
  pub valid : Bool

unfoldable pub new : MbrState
unfolding empty
new = record { entries = empty ∷ empty ∷ empty ∷ empty ∷ []; whole_disk = true; valid = false }

-- `u32::from_le_bytes` of four bytes from `i` on.
abbrev pub le_word : Sector → ℕ → ℕ
le_word buf i = buf i + buf (i + 1) * 2 ^ 8 + buf (i + 2) * 2 ^ 16 + buf (i + 3) * 2 ^ 24

unfoldable pub entry_at : Sector → ℕ → PartEntry
entry_at buf off = record {
  status = buf off;
  partition_type = buf (off + 4);
  start_lba = le_word buf (off + 8);
  size_sectors = le_word buf (off + 12);
}

-- The four entries, at 446, 462, 478 and 494.
unfoldable pub parsed : Sector → List PartEntry
unfolding entry_at
parsed buf = entry_at buf 446 ∷ entry_at buf 462 ∷ entry_at buf 478 ∷ entry_at buf 494 ∷ []

-- `has_any` of the loop.
unfoldable pub has_any : List PartEntry → Bool
has_any [] = false
has_any (e ∷ es) = not (e.partition_type == 0) || has_any es

unfoldable pub init : MbrState → Bool → Option Sector → MbrState
unfolding parsed has_any
init mbr is_present none = mbr
init mbr is_present (some buf) =
    if not is_present
    then mbr
    else if not (buf 510 == 0x55) || not (buf 511 == 0xAA)
    then mbr
    else if buf 0 == 0xEB || buf 0 == 0xE9
    then record mbr { valid = true; whole_disk = true }
    else record { entries = parsed buf; valid = true; whole_disk = not (has_any (parsed buf)) }

unfoldable pub is_fat16 : PartEntry → Bool
is_fat16 e =
    e.partition_type == ptype_fat16_small
    || (e.partition_type == ptype_fat16_large || e.partition_type == ptype_fat16_lba)

unfoldable pub first_fat16 : List PartEntry → ℕ
unfolding is_fat16
first_fat16 [] = 0
first_fat16 (e ∷ es) = let rest = first_fat16 es in if is_fat16 e then e.start_lba else rest

unfoldable pub fat16_lba_offset : MbrState → ℕ
unfolding first_fat16
fat16_lba_offset mbr = if not mbr.valid || mbr.whole_disk then 0 else first_fat16 mbr.entries

unfoldable pub first_linux : List PartEntry → Option ℕ
first_linux [] = none
first_linux (e ∷ es) =
    let rest = first_linux es in if e.partition_type == ptype_linux then some e.start_lba else rest

unfoldable pub ext2_lba_offset : MbrState → Option ℕ
unfolding first_linux
ext2_lba_offset mbr = if not mbr.valid || mbr.whole_disk then none else first_linux mbr.entries

-- `mbr[i] = v`
abbrev pub put : ℕ → ℕ → Sector → Sector
put i v s j = if j == i then v else s j

-- `to_le_bytes` of a `u32`, from `i` on.
unfoldable pub put_word : ℕ → ℕ → Sector → Sector
put_word i n s =
    put (i + 3) (n / 2 ^ 24 % 256)
      (put (i + 2) (n / 2 ^ 16 % 256) (put (i + 1) (n / 2 ^ 8 % 256) (put i (n % 256) s)))

-- `write_part_entry` on the sixteen bytes from `off` on.
unfoldable pub write_part_entry : ℕ → ℕ → ℕ → ℕ → ℕ → Sector → Sector
unfolding put_word
write_part_entry off status ptype lba_start sectors s = put_word (off + 12) sectors (
    put_word (off + 8) lba_start (
      put (off + 7) 0xFF (
        put (off + 6) 0xFF (
          put (off + 5) 0xFE (
            put (off + 4) ptype
              (put (off + 3) 0xFF (put (off + 2) 0xFF (put (off + 1) 0xFE (put off status s)))))))))

-- The first 440 bytes of the boot loader's code, and zeros.
unfoldable pub bootstrap : List ℕ → Sector
bootstrap code j = if ltb j (min (length code) 440) then get_or code j 0 else 0

abbrev pub efi_part_start : ℕ
efi_part_start = 2048

abbrev pub efi_part_sectors : ℕ
efi_part_sectors = 131072

abbrev pub data_part_start : ℕ
data_part_start = 133120

abbrev pub data_part_sectors : ℕ
data_part_sectors = 131072

unfoldable pub write_mbr : List ℕ → Sector
unfolding bootstrap write_part_entry
write_mbr code = put 511 0xAA (
    put 510 0x55 (
      write_part_entry 462 0x00 0x06 data_part_start data_part_sectors (
        write_part_entry 446 0x80 0xEF efi_part_start efi_part_sectors (
          put 445 0 (
            put 444 0
              (put 443 0xEF (put 442 0xBE (put 441 0xAD (put 440 0xDE (bootstrap code))))))))))
