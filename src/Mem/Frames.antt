-- ===== src/Mem/Frames.antt =====
-- kernel/src/kernel/mem/paging_allocator.rs, the struct PhysicalFrameAllocator: which of the 65536
-- frames are in use, in a bitmap of 64-bit words, and how many owners each has. The frames that
-- hold the boot loader's page tables are a parameter of `init`.
pub mod Bitmap
pub mod Allocate
pub mod Share
mod Tests
use Prim.Native.Nat.{zero, suc, bit_and, bit_or}
use oxide_os.Prelude.{
  ℕ, ◌+◌, ◌-◌, ◌*◌, ◌/◌, ◌%◌, ◌^◌, min, max, Bool, true, false, ◌&&◌, Option, none, some, List, [],
  ◌∷◌, ltb, ◌==◌, if◌then◌else◌, get_or, set, replicate, for_range,
}

abbrev pub frame_count : ℕ
frame_count = 65536

pub record FrameAllocator : Type 0 where
  pub bitmap : List ℕ
  pub refcount : List ℕ
  pub next_frame : ℕ
  pub total_frames : ℕ
  pub allocated_frames : ℕ

unfoldable pub new : FrameAllocator
new = record {
  bitmap = replicate 1024 0;
  refcount = replicate frame_count 0;
  next_frame = 0;
  total_frames = 0;
  allocated_frames = 0;
}

-- `1u64 << (frame % 64)`
abbrev pub mask_of : ℕ → ℕ
mask_of frame = 2 ^ (frame % 64)

-- `bitmap[frame / 64]`, used for a frame below 65536.
abbrev pub word_of : FrameAllocator → ℕ → ℕ
word_of a frame = get_or a.bitmap (frame / 64) 0

-- `refcount[frame]`
abbrev pub count_of : FrameAllocator → ℕ → ℕ
count_of a frame = get_or a.refcount frame 0

unfoldable pub mark_free : FrameAllocator → ℕ → FrameAllocator
mark_free a frame =
    if ltb frame frame_count
    then record a {
      bitmap = set a.bitmap (frame / 64) (bit_and (word_of a frame) (2 ^ 64 - 1 - mask_of frame));
    }
    else a

unfoldable pub mark_used : FrameAllocator → ℕ → FrameAllocator
mark_used a frame =
    if ltb frame frame_count
    then record a { bitmap = set a.bitmap (frame / 64) (bit_or (word_of a frame) (mask_of frame)) }
    else a

unfoldable pub is_free : FrameAllocator → ℕ → Bool
is_free a frame = ltb frame frame_count && bit_and (word_of a frame) (mask_of frame) == 0

unfoldable pub mark_frame_used : FrameAllocator → ℕ → FrameAllocator
unfolding mark_used is_free
mark_frame_used a phys =
    let frame = phys / 4096 in
    if ltb frame frame_count
    then mark_used (if is_free a frame then record a { total_frames = a.total_frames - 1 } else a)
        frame
    else a

-- An entry of the boot loader's map.
pub record Entry : Type 0 where
  pub base : ℕ
  pub length : ℕ
  pub usable : Bool

-- The loop over the frames of one usable entry, those below 32 MB left out.
unfoldable pub track_entry : FrameAllocator → Entry → FrameAllocator
unfolding mark_free for_range
track_entry a e =
    let start = e.base / 4096 in
    let safe = max start 8192 in
    if e.usable && ltb safe frame_count
    then for_range (min (start + e.length / 4096) frame_count - safe) safe
        (λ frame a'. record (mark_free a' frame) { total_frames = a'.total_frames + 1 }) a
    else a

unfoldable pub track_all : FrameAllocator → List Entry → FrameAllocator
unfolding track_entry
track_all a [] = a
track_all a (e ∷ es) = track_all (track_entry a e) es

unfoldable pub protect_all : FrameAllocator → List ℕ → FrameAllocator
unfolding mark_frame_used
protect_all a [] = a
protect_all a (phys ∷ rest) = protect_all (mark_frame_used a phys) rest

-- `init` with the map and the tables found from CR3.
unfoldable pub init : FrameAllocator → List Entry → List ℕ → FrameAllocator
unfolding track_all protect_all
init a entries tables =
    protect_all (track_all (record a { bitmap = replicate 1024 (2 ^ 64 - 1) }) entries) tables

-- The search of `allocate_frame` with `n` rounds left.
unfoldable pub find_frame : FrameAllocator → ℕ → ℕ → Option ℕ
unfolding is_free
find_frame a zero off = none
find_frame a (suc n) off =
    let rest = find_frame a n (off + 1) in
    if is_free a ((a.next_frame + off) % frame_count)
    then some ((a.next_frame + off) % frame_count)
    else rest

-- A frame taken.
unfoldable pub taken : FrameAllocator → ℕ → FrameAllocator
unfolding mark_used
taken a frame = record (mark_used a frame) {
  refcount = set a.refcount frame 1;
  next_frame = (frame + 1) % frame_count;
  allocated_frames = (a.allocated_frames + 1) % 2 ^ 64;
}

unfoldable pub allocate_frame : FrameAllocator → Option ℕ × FrameAllocator
unfolding find_frame taken
allocate_frame a = elim (find_frame a a.total_frames 0) [
  | none ↦ (none, a)
  | some frame ↦ (some (frame * 4096), taken a frame)
]

-- `saturating_sub(1)` and `saturating_add(1)` on a `u16`; the count of frames wraps.
unfoldable pub free_frame : FrameAllocator → ℕ → FrameAllocator
unfolding mark_free
free_frame a addr =
    let frame = addr / 4096 in
    let left = count_of a frame - 1 in
    let released = record a { refcount = set a.refcount frame left } in
    if ltb frame frame_count
    then (if left == 0
        then record (mark_free released frame) {
          allocated_frames = (a.allocated_frames + (2 ^ 64 - 1)) % 2 ^ 64;
        }
        else released)
    else a

unfoldable pub inc_refcount : FrameAllocator → ℕ → FrameAllocator
inc_refcount a addr =
    let frame = addr / 4096 in
    if ltb frame frame_count
    then record a { refcount = set a.refcount frame (min 65535 (count_of a frame + 1)) }
    else a

unfoldable pub get_refcount : FrameAllocator → ℕ → ℕ
get_refcount a addr =
    let frame = addr / 4096 in if ltb frame frame_count then count_of a frame else 0
