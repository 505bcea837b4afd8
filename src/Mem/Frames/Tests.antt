-- ===== src/Mem/Frames/Tests.antt =====
-- The frame allocator with one usable entry of four frames above 32 MB.
use oxide_os.Prelude.{inl, inr, subst, sym, ap, ℕ, ◌≡◌, ◌*◌, refl, some, [], length-replicate}
use oxide_os.Mem.Frames.{
  FrameAllocator, new, init, is_free, mark_free, mark_used, allocate_frame, find_frame, taken,
  count_of,
}
use oxide_os.Mem.Frames.Bitmap.{Sized}
use oxide_os.Mem.Frames.Allocate.{Allocates, allocate_frame_lem}

-- Two frames tracked, from 8192 on.
abbrev small : FrameAllocator
small = record (mark_free (mark_free (init new [] []) 8192) 8193) {
  next_frame = 8192;
  total_frames = 2;
}

small-Sized : Sized small
unfolding new init mark_free
small-Sized = record { words = refl; counts = length-replicate {A = ℕ} 65536 0 }

allocates_twice : (allocate_frame (allocate_frame small).1).0 ≡ some (8193 * 4096)
unfolding new init mark_free allocate_frame find_frame taken mark_used is_free
allocates_twice = refl

allocate_frame_lem_example : Allocates small (allocate_frame small)
allocate_frame_lem_example = allocate_frame_lem small small-Sized

-- Frame 8192 with one owner.
abbrev owned : FrameAllocator
owned = (allocate_frame small).1

owned-Sized : Sized owned
owned-Sized = elim (allocate_frame_lem small small-Sized) [
  | inl (same, _) ↦ subst Sized (sym (ap (λ p. p.1) same)) small-Sized
  | inr (_, _, _, _, took) ↦ took.sized
]

owned_once : count_of owned 8192 ≡ 1
unfolding new init mark_free allocate_frame find_frame taken mark_used is_free
owned_once = refl
