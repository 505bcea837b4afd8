-- ===== src/Sys/Guard/Range.antt =====
-- Which ranges of addresses the check admits.
use oxide_os.Prelude.{ℕ, ◌≡◌, ◌↔◌, arith}
use oxide_os.Sys.Guard.{ok, validate_user_range, InUser}

-- The check passes exactly when the range is empty, or starts at 0x1000 or above and ends at or
-- below the kernel's base, whatever the numbers.
pub validate_user_range_lem : (ptr len : ℕ) → (validate_user_range ptr len ≡ ok) ↔ InUser ptr len
unfolding validate_user_range
validate_user_range_lem ptr len = ground arith
