-- ===== src/Mem/Cow/Entry.antt =====
-- kernel/src/kernel/mem/paging_allocator.rs: the page table entry that try_resolve_cow_fault
-- writes.
use Prim.Native.Nat.{bit_and}
use oxide_os.Prelude.{
  ℕ, zero, suc, ◌*◌, ◌/◌, ◌^◌, ◌<◌, ◌≤◌, min, max, ◌≡◌, ◌≢◌, sym, ap, ◌∙◌, true, false, dec_lt,
  arith,
}
use oxide_os.Prelude.Bits.{
  digit, digit-lt, digit-bit_and, digit-bit_or, digit-complement, digit-pow_other, digit_above,
  digit_of_zero, same_digits,
}
use oxide_os.Mem.Flags.{flags, addr, addr_mask, is_cow, is_writable, as_writable_no_cow}
use oxide_os.Mem.Flags.Laws.{resolved-Private, digit-as_writable_no_cow}
use oxide_os.Mem.Cow.{resolved}

-- An entry for the page at `frame` that can be written and is not marked as shared, with all other
-- flags of the entry before.
pub record Opened (frame before e : ℕ) : Type 0 where
  pub frame_of : addr e ≡ frame
  pub may_write : is_writable e ≡ true
  pub unshared : is_cow e ≡ false
  pub other_flags : (k : ℕ) → k < 12 → k ≢ 1 → k ≢ 9 → digit k e ≡ digit k before

-- The digits of the two masks.
low_digit : (k : ℕ) → k < 12 → digit k 0xFFF ≡ 1
low_digit k h = digit-complement k 12 0 h (omega arith) ∙ omega (arith, digit_of_zero k)

mask_low : (k : ℕ) → k < 12 → digit k addr_mask ≡ 0
mask_low k h =
    digit-complement k 52 0xFFF (omega (arith, h)) (omega arith) ∙ omega (arith, low_digit k h)

mask_high : (k : ℕ) → 12 ≤ k → k < 52 → digit k addr_mask ≡ 1
mask_high k l h =
    digit-complement k 52 0xFFF h (omega arith)
    ∙ omega (arith, digit_above k 12 0xFFF (omega arith) l)

apart : (k : ℕ) → min (digit k 0xFFF) (digit k addr_mask) ≡ 0
apart k = sym (digit-bit_and k 0xFFF addr_mask) ∙ digit_of_zero k

-- The address in an entry is one that an entry can hold.
pub addr-addr : (e : ℕ) → addr (addr e) ≡ addr e
unfolding addr
addr-addr e = same_digits (bit_and (bit_and e addr_mask) addr_mask) (bit_and e addr_mask) (λ k.
    digit-bit_and k (bit_and e addr_mask) addr_mask ∙ omega (arith, digit-bit_and k e addr_mask))

double : (w a : ℕ) → a * 2 ^ suc w ≡ a * 2 ^ w * 2
double w a = ap (λ x. a * x) (power w) ∙ regroup (2 ^ w)
  where
    power : (w : ℕ) → 2 ^ suc w ≡ 2 ^ w * 2
    power w = omega arith

    regroup : (p : ℕ) → a * (p * 2) ≡ a * p * 2
    regroup p = omega arith

low_zeros : (k w a : ℕ) → k < w → digit k (a * 2 ^ w) ≡ 0
unfolding digit
low_zeros k zero a h = absurd (omega (arith, h))
low_zeros zero (suc w) a h = omega (arith, double w a)
low_zeros (suc k) (suc w) a h = ap (digit k) half ∙ low_zeros k w a (omega (arith, h))
  where
    half : a * 2 ^ suc w / 2 ≡ a * 2 ^ w
    half = omega (arith, double w a)

-- So is the address of a frame.
pub addr-frame : (f : ℕ) → f < 65536 → addr (f * 4096) ≡ f * 4096
unfolding addr
addr-frame f h = same_digits (bit_and (f * 4096) addr_mask) (f * 4096) each
  where
    each : (k : ℕ) → digit k (bit_and (f * 4096) addr_mask) ≡ digit k (f * 4096)
    each k = digit-bit_and k (f * 4096) addr_mask ∙ elim (dec_lt k 12) [
      | yes l ↦ omega (arith, low_zeros k 12 f l)
      | no l ↦ elim (dec_lt k 52) [
        | yes u ↦ omega (arith, mask_high k (omega (arith, l)) u, digit-lt k (f * 4096))
        | no u ↦ omega (arith, digit_above k 52 (f * 4096) (omega (arith, h)) (omega (arith, u)))
      ]
    ]

module _ (frame old : ℕ) (is_address : addr frame ≡ frame) where
  digit-frame : (k : ℕ) → digit k frame ≡ min (digit k frame) (digit k addr_mask)
  unfolding addr
  digit-frame k = sym (ap (digit k) is_address) ∙ digit-bit_and k frame addr_mask

  digit-resolved :
      (k : ℕ)
      → digit k (resolved frame old)
        ≡ max (digit k frame) (min (digit k (as_writable_no_cow (flags old))) (digit k 0xFFF))
  unfolding resolved flags
  digit-resolved k =
      digit-bit_or k frame (bit_and (as_writable_no_cow (flags old)) 0xFFF)
      ∙ ap (max (digit k frame)) (digit-bit_and k (as_writable_no_cow (flags old)) 0xFFF)

  frame_of_resolved : addr (resolved frame old) ≡ frame
  unfolding addr
  frame_of_resolved = same_digits (bit_and (resolved frame old) addr_mask) frame (λ k.
      digit-bit_and k (resolved frame old) addr_mask
      ∙ omega (
        arith,
        digit-resolved k,
        digit-frame k,
        apart k,
        digit-lt k frame,
        digit-lt k addr_mask,
        digit-lt k 0xFFF,
        digit-lt k (as_writable_no_cow (flags old)),
      ))

  flags_of_resolved : (k : ℕ) → k < 12 → k ≢ 1 → k ≢ 9 → digit k (resolved frame old) ≡ digit k old
  unfolding flags
  flags_of_resolved k h p q =
      digit-resolved k
      ∙ omega (
        arith,
        digit-frame k,
        mask_low k h,
        low_digit k h,
        digit-as_writable_no_cow k (bit_and old 0xFFF) (omega (arith, h)),
        digit-bit_and k old 0xFFF,
        digit-pow_other k 1 (λ e. p (sym e)),
        digit-pow_other k 9 (λ e. q (sym e)),
        digit-lt k old,
      )

  -- The entry that a resolved fault writes.
  pub resolved-Opened : Opened frame old (resolved frame old)
  unfolding resolved
  resolved-Opened =
      let private =
        resolved-Private frame (flags old)
          (digit-frame 9 ∙ omega (arith, mask_low 9 (omega arith))) in
      record {
        frame_of = frame_of_resolved;
        may_write = private.0;
        unshared = private.1;
        other_flags = flags_of_resolved;
      }
