-- ===== src/Mem/Flags.antt =====
-- kernel/src/kernel/mem/paging_allocator.rs: the flags of a page table entry, and the entry.
pub mod Laws
use Prim.Native.Nat.{bit_and, bit_or}
use oxide_os.Prelude.{
  ℕ, ◌+◌, ◌-◌, ◌^◌, ◌%◌, Bool, true, false, not, ◌==◌, if◌then◌else◌, List, replicate,
}

-- The flags are a word of 64 bits.
abbrev pub present : ℕ
present = 2 ^ 0

abbrev pub writable : ℕ
writable = 2 ^ 1

abbrev pub user : ℕ
user = 2 ^ 2

abbrev pub cow : ℕ
cow = 2 ^ 9

abbrev pub no_execute : ℕ
no_execute = 2 ^ 63

-- `!mask`
abbrev pub complement : ℕ → ℕ
complement mask = 2 ^ 64 - 1 - mask

-- `word & mask != 0`
abbrev pub has : ℕ → ℕ → Bool
has word mask = not (bit_and word mask == 0)

unfoldable pub kernel_flags : ℕ
kernel_flags = bit_or present writable

unfoldable pub user_flags : Bool → Bool → ℕ
user_flags is_writable is_executable =
    let f = bit_or present user in
    let g = if is_writable then bit_or f writable else f in
    if not is_executable then bit_or g no_execute else g

unfoldable pub parent_table_flags : ℕ → ℕ
parent_table_flags f =
    if has f user then bit_or (bit_or present writable) user else bit_or present writable

unfoldable pub merge : ℕ → ℕ → ℕ
merge f other = bit_or f other

unfoldable pub is_writable : ℕ → Bool
is_writable f = has f writable

unfoldable pub is_cow : ℕ → Bool
is_cow f = has f cow

unfoldable pub as_cow : ℕ → ℕ
as_cow f = bit_or (bit_and f (complement writable)) cow

unfoldable pub as_writable_no_cow : ℕ → ℕ
as_writable_no_cow f = bit_and (bit_or f writable) (complement cow)

-- The bits of an entry that are an address.
abbrev pub addr_mask : ℕ
addr_mask = 0x000FFFFFFFFFF000

unfoldable pub is_present : ℕ → Bool
is_present e = has e present

unfoldable pub flags : ℕ → ℕ
flags e = bit_and e 0xFFF

unfoldable pub addr : ℕ → ℕ
addr e = bit_and e addr_mask

-- `set`: of the flags only the low twelve bits are stored.
unfoldable pub entry_of : ℕ → ℕ → ℕ
entry_of address f = bit_or (bit_and address addr_mask) (bit_and f 0xFFF)

-- A table of empty entries.
unfoldable pub table_new : List ℕ
table_new = replicate 512 0
