-- ===== src/Sys/Guard/Tests.antt =====
-- Ranges and strings at concrete inputs.
use oxide_os.Prelude.{◌≡◌, ◌↔◌, refl, ap, ltb, ◌==◌, if◌then◌else◌}
use oxide_os.Sys.Guard.{Memory, ok, validate_user_range, InUser, strnlen_user, scan, page_of}
use oxide_os.Sys.Guard.Range.{validate_user_range_lem}
use oxide_os.Sys.Guard.Scan.{plain_scan, strnlen_user-plain_scan}

-- Two pages that hold a string of four bytes at the end of the first.
abbrev two_pages : Memory
two_pages = record {
  is_page_mapped_current = λ a. ltb (page_of a) 0x3000;
  read_byte = λ a. if a == 0x2001 then 0 else 65;
}

strnlen_runs : strnlen_user two_pages 0x1FFE 4096 ≡ 4
unfolding strnlen_user scan
strnlen_runs = refl

validate_user_range_lem_example : (validate_user_range 0x1000 16 ≡ ok) ↔ InUser 0x1000 16
validate_user_range_lem_example = validate_user_range_lem 0x1000 16

strnlen_user-plain_scan_example : strnlen_user two_pages 0x1FFE 8 ≡ plain_scan two_pages 0x1FFE 8 0
strnlen_user-plain_scan_example =
    strnlen_user-plain_scan two_pages 0x1FFE 8 (λ a b e. ap (λ p. ltb p 0x3000) e)
