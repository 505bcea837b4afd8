-- ===== src/Mem/Cow.antt =====
-- kernel/src/kernel/mem/paging_allocator.rs: a write fault on a page that a fork shares. Physical
-- memory is a function from the address of a word to its 64 bits: the direct map adds a constant
-- to an address, and the page that faulted is read through its frame.
pub mod Entry
pub mod Walk
pub mod Resolve
mod Tests
use Prim.Native.Nat.{bit_or}
use oxide_os.Prelude.{
  ℕ, ◌+◌, ◌-◌, ◌*◌, ◌/◌, ◌%◌, ◌^◌, Bool, true, false, not, ◌&&◌, ◌||◌, Option, none, some, ltb, leb,
  ◌==◌, if◌then◌else◌,
}
use oxide_os.Mem.Frames.{FrameAllocator, allocate_frame, free_frame, get_refcount}
use oxide_os.Mem.Flags.{has, present, is_cow, as_writable_no_cow, flags, addr}

abbrev pub Memory : Type 0
Memory = ℕ → ℕ

-- `*table.add(index)`
abbrev pub word_at : Memory → ℕ → ℕ → ℕ
word_at m table index = m (table + 8 * index)

-- `(fault_addr >> shift) & 0x1FF`
abbrev pub index_of : ℕ → ℕ → ℕ
index_of fault_addr shift = fault_addr / 2 ^ shift % 512

-- `e & (1 << 7) != 0`
abbrev pub is_huge : ℕ → Bool
is_huge e = has e (2 ^ 7)

-- The address of the last-level entry of a page, where the tables above it are present and the page
-- is not a huge one.
unfoldable pub walk : Memory → ℕ → ℕ → Option ℕ
unfolding addr
walk m cr3 fault_addr =
    let l4e = word_at m (addr cr3) (index_of fault_addr 39) in
    if not (has l4e present)
    then none
    else (let l3e = word_at m (addr l4e) (index_of fault_addr 30) in
        if not (has l3e present) || is_huge l3e
        then none
        else (let l2e = word_at m (addr l3e) (index_of fault_addr 21) in
            if not (has l2e present) || is_huge l2e
            then none
            else some (addr l2e + 8 * index_of fault_addr 12)))

-- A word written.
unfoldable pub put : Memory → ℕ → ℕ → Memory
put m a v b = if b == a then v else m b

-- `copy_nonoverlapping` of 4096 bytes.
unfoldable pub copy_page : Memory → ℕ → ℕ → Memory
copy_page m from to a = if leb to a && ltb a (to + 4096) then m (from + (a - to)) else m a

-- The entry that the page gets: writable, no longer shared.
unfoldable pub resolved : ℕ → ℕ → ℕ
unfolding flags as_writable_no_cow
resolved frame l1e = bit_or frame (flags (as_writable_no_cow (flags l1e)))

-- The page at the entry `slot`.
unfoldable pub resolve_at : FrameAllocator → Memory → ℕ → Bool × FrameAllocator × Memory
unfolding resolved flags addr is_cow get_refcount put copy_page
resolve_at fa m slot =
    let l1e = m slot in
    let frame = addr l1e in
    if not (has l1e present)
    then (false, fa, m)
    else if not (is_cow (flags l1e))
    then (false, fa, m)
    else if leb (get_refcount fa frame) 1
    then (true, fa, put m slot (resolved frame l1e))
    else (let (new_frame, fb) = allocate_frame fa in
        elim new_frame [
          | none ↦ (false, fb, m)
          | some to ↦ (true, free_frame fb frame, put (copy_page m frame to) slot (resolved to l1e))
        ])

unfoldable pub try_resolve_cow_fault :
    FrameAllocator → Memory → ℕ → ℕ → Bool × FrameAllocator × Memory
unfolding walk resolve_at
try_resolve_cow_fault fa m cr3 fault_addr = elim (walk m cr3 fault_addr) [
  | none ↦ (false, fa, m)
  | some slot ↦ resolve_at fa m slot
]
