-- ===== src/Mem/Cow/Tests.antt =====
-- Faults on a shared page, with one owner and with two, behind four tables.
use oxide_os.Prelude.{◌≡◌, refl, true, ◌==◌, if◌then◌else◌, set}
use oxide_os.Mem.Frames.{FrameAllocator, new, get_refcount, allocate_frame, free_frame}
use oxide_os.Mem.Flags.{flags, addr, is_cow, as_writable_no_cow}
use oxide_os.Mem.Cow.{Memory, walk, put, copy_page, resolved, resolve_at, try_resolve_cow_fault}

abbrev tables : Memory
tables a =
    if a == 0x1000
    then 0x2001
    else if a == 0x2000
    then 0x3001
    else if a == 0x3000
    then 0x4001
    else if a == 0x4028
    then 0x7205
    else 0

resolves_in_place :
    ((try_resolve_cow_fault new tables 0x1000 0x5008).0 ≡ true)
    × ((try_resolve_cow_fault new tables 0x1000 0x5008).2 0x4028 ≡ 0x7007)
unfolding try_resolve_cow_fault walk resolve_at resolved flags addr is_cow as_writable_no_cow put
    new get_refcount
resolves_in_place = (refl, refl)

-- The frame of the page has two owners, and the search for a frame starts at frame 32.
abbrev two_owners : FrameAllocator
two_owners = record new { total_frames = 64; next_frame = 32; refcount = set new.refcount 7 2 }

resolves_on_a_copy :
    (let r = try_resolve_cow_fault two_owners tables 0x1000 0x5008 in r.0 ≡ true)
    × (let r = try_resolve_cow_fault two_owners tables 0x1000 0x5008 in r.2 0x4028 ≡ 0x2_0007)
    × (let r = try_resolve_cow_fault two_owners tables 0x1000 0x5008 in get_refcount r.1 0x7000 ≡ 1)
    × (let r = try_resolve_cow_fault two_owners tables 0x1000 0x5008 in
        get_refcount r.1 0x2_0000 ≡ 1)
unfolding try_resolve_cow_fault walk resolve_at resolved flags addr is_cow as_writable_no_cow put
    new get_refcount allocate_frame free_frame copy_page
resolves_on_a_copy = (refl, refl, refl, refl)
