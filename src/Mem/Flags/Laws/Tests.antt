-- ===== src/Mem/Flags/Laws/Tests.antt =====
-- The flags of a writable user page.
use oxide_os.Prelude.{◌≡◌, refl}
use oxide_os.Mem.Flags.{as_cow}

shared_runs : as_cow 7 ≡ 0x205
unfolding as_cow
shared_runs = refl
