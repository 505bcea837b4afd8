-- ===== src/Sys/Guard.antt =====
-- kernel/src/kernel/sys/syscall_core.rs: the checks on addresses that a program passes, and the
-- length of a string in its memory. Whether a page is mapped and what a byte of memory holds are
-- parameters (`is_page_mapped_current`, a raw read).
pub mod Range
pub mod Scan
mod Tests
use oxide_os.Prelude.{
  ℕ, zero, suc, ◌+◌, ◌-◌, ◌*◌, ◌%◌, ◌^◌, ◌≤◌, ◌⊎◌, ◌≡◌, Bool, true, false, not, ◌&&◌, Option, none,
  some, ltb, leb, ◌==◌, if◌then◌else◌, ℤ, neg,
}

abbrev pub einval : ℤ
einval = neg 1

abbrev pub enosys : ℤ
enosys = neg 2

abbrev pub ebadf : ℤ
ebadf = neg 5

abbrev pub eagain : ℤ
eagain = neg 6

abbrev pub user_space_start : ℕ
user_space_start = 0x1000

abbrev pub kernel_space_base : ℕ
kernel_space_base = 0xFFFF800000000000

-- `Result<(), i64>`
pub data Check : Type 0 where
  ok : Check
  err : ℤ → Check

-- The test of `len` against the largest `usize` never fails on a 64-bit number.
unfoldable pub validate_user_range : ℕ → ℕ → Check
validate_user_range ptr_addr len =
    if len == 0
    then ok
    else if ltb ptr_addr user_space_start
    then err einval
    else if leb (2 ^ 64) (ptr_addr + (len - 1))
    then err einval
    else if leb kernel_space_base (ptr_addr + (len - 1))
    then err einval
    else ok

-- The range is empty or lies in the user's part of the address space.
abbrev pub InUser : ℕ → ℕ → Type 0
InUser ptr len = (len ≡ 0) ⊎ ((user_space_start ≤ ptr) × (ptr + len ≤ kernel_space_base))

-- The memory that is mapped at the time of the call.
pub record Memory : Type 0 where
  pub is_page_mapped_current : ℕ → Bool
  pub read_byte : ℕ → ℕ

-- `ptr + i as u64`
abbrev pub addr_of : ℕ → ℕ → ℕ
addr_of ptr i = (ptr + i) % 2 ^ 64

-- `addr & !0xFFF`
abbrev pub page_of : ℕ → ℕ
page_of addr = addr - addr % 4096

-- The loop of `strnlen_user` with `n` rounds left: `i` bytes are read, and `checked_page` was seen
-- to be mapped.
unfoldable pub scan : Memory → ℕ → ℕ → ℕ → ℕ → ℕ
scan m ptr zero i checked_page = i
scan m ptr (suc n) i checked_page =
    let rest = scan m ptr n (i + 1) (page_of (addr_of ptr i)) in
    if not (page_of (addr_of ptr i) == checked_page)
      && not (m.is_page_mapped_current (addr_of ptr i))
    then 0
    else if m.read_byte (addr_of ptr i) == 0
    then i + 1
    else rest

unfoldable pub strnlen_user : Memory → ℕ → ℕ → ℕ
unfolding scan
strnlen_user m ptr max = scan m ptr max 0 (2 ^ 64 - 1)
