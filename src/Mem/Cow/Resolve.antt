-- ===== src/Mem/Cow/Resolve.antt =====
-- What the handling of a write fault does to the frames and to memory.
use oxide_os.Prelude.{ℕ, ◌+◌, ◌/◌, ◌<◌, ◌≤◌, ◌≡◌, ◌≢◌, ◌⊎◌, Bool, true, false, some}
use oxide_os.Mem.Frames.{FrameAllocator, get_refcount, is_free}
use oxide_os.Mem.Frames.Allocate.{Allocates, place}
use oxide_os.Mem.Frames.Share.{Loses}
use oxide_os.Mem.Flags.{has, present, is_cow, flags, addr}
use oxide_os.Mem.Cow.{Memory}
use oxide_os.Mem.Cow.Entry.{Opened}

-- The page at an entry is present and marked as shared.
abbrev pub IsShared : ℕ → Type 0
IsShared e = (has e present ≡ true) × (is_cow (flags e) ≡ true)

-- Memory where only the word at `slot` changed: the entry for the page at `frame`.
pub record Rewritten (m : Memory) (slot frame : ℕ) (after : Memory) : Type 0 where
  pub entry : Opened frame (m slot) (after slot)
  pub others : (a : ℕ) → a ≢ slot → after a ≡ m a

-- Memory where the 4096 bytes from `to` on hold what those from `from` on held, and the word at
-- `slot` is the entry for the page at `to`.
pub record Moved (m : Memory) (slot from to : ℕ) (after : Memory) : Type 0 where
  pub entry : Opened to (m slot) (after slot)
  pub copy : (i : ℕ) → i < 4096 → to + i ≢ slot → after (to + i) ≡ m (from + i)
  pub others : (a : ℕ) → a ≢ slot → (a < to) ⊎ (to + 4096 ≤ a) → after a ≡ m a

-- How a fault on the page at the entry `slot` ends. It is refused only where the page is not
-- present or not shared, or has more owners and no frame is free.
pub data Resolves (fa : FrameAllocator) (m : Memory) (slot : ℕ)
    : Bool × FrameAllocator × Memory → Type 0 where
  not_present : has (m slot) present ≡ false → Resolves fa m slot (false, fa, m)
  not_shared : is_cow (flags (m slot)) ≡ false → Resolves fa m slot (false, fa, m)
  no_frame :
      1 < get_refcount fa (addr (m slot))
      → ((i : ℕ) → i < fa.total_frames → is_free fa (place fa i) ≡ false)
      → Resolves fa m slot (false, fa, m)
  in_place :
      (after : Memory)
      → IsShared (m slot)
      → get_refcount fa (addr (m slot)) ≤ 1
      → Rewritten m slot (addr (m slot)) after
      → Resolves fa m slot (true, fa, after)
  copied :
      (to : ℕ) (fb fc : FrameAllocator) (after : Memory)
      → IsShared (m slot)
      → 1 < get_refcount fa (addr (m slot))
      → Allocates fa (some to, fb)
      → Loses fb (addr (m slot) / 4096) fc
      → Moved m slot (addr (m slot)) to after
      → Resolves fa m slot (true, fc, after)
