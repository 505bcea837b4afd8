-- ===== src/Sys/Guard/Scan.antt =====
-- The length of a string in user memory, against a loop that asks for every byte whether its page
-- is mapped.
use oxide_os.Prelude.{
  ℕ, zero, suc, ◌+◌, ◌-◌, ◌^◌, ◌≡◌, inl, inr, Bool-cases, true, not, ◌&&◌, ◌==◌, ==_iff,
  if◌then◌else◌, arith, refl, ap, ◌∙◌,
}
use oxide_os.Sys.Guard.{Memory, addr_of, page_of, scan, strnlen_user}

-- The bytes from the `i`-th on, each one's page looked up.
pub plain_scan : Memory → ℕ → ℕ → ℕ → ℕ
plain_scan m ptr zero i = i
plain_scan m ptr (suc n) i =
    let rest = plain_scan m ptr n (i + 1) in
    if not (m.is_page_mapped_current (addr_of ptr i))
    then 0
    else if m.read_byte (addr_of ptr i) == 0
    then i + 1
    else rest

-- Whether a page is mapped depends on the page only.
abbrev pub PageWise : Memory → Type 0
PageWise m =
    (a b : ℕ) → page_of a ≡ page_of b → m.is_page_mapped_current a ≡ m.is_page_mapped_current b

-- Every address on the page is mapped.
Seen : Memory → ℕ → Type 0
Seen m page = (a : ℕ) → page_of a ≡ page → m.is_page_mapped_current a ≡ true

no_page : (m : Memory) → Seen m (2 ^ 64 - 1)
unfolding Seen
no_page m a e = absurd (omega (arith, e))

-- An address off the remembered page is looked up, and one on it is known to be mapped.
looked_up :
    (m : Memory) (page a : ℕ)
    → Seen m page
    → (not (page_of a == page) && not (m.is_page_mapped_current a))
      ≡ not (m.is_page_mapped_current a)
unfolding Seen
looked_up m page a seen = elim (Bool-cases (page_of a == page)) [
  | inl e ↦ simp (e, seen a ((==_iff (page_of a) page).0 e)) refl
  | inr e ↦ simp e refl
]

scan-plain_scan :
    (m : Memory) (ptr n i page : ℕ)
    → PageWise m
    → Seen m page
    → scan m ptr n i page ≡ plain_scan m ptr n i
unfolding scan plain_scan Seen
scan-plain_scan m ptr zero i page wise seen = refl
scan-plain_scan m ptr (suc n) i page wise seen =
    elim (Bool-cases (m.is_page_mapped_current (addr_of ptr i))) [
      | inl e ↦ simp (looked_up m page (addr_of ptr i) seen ∙ ap not e) (
          simp e (
            simp
              (scan-plain_scan m ptr n (i + 1) (page_of (addr_of ptr i)) wise
                (λ a p. wise a (addr_of ptr i) p ∙ e))
              refl))
      | inr e ↦ simp (looked_up m page (addr_of ptr i) seen ∙ ap not e) (simp e refl)
    ]

-- Remembering the last page that was seen to be mapped does not change the result: the length is
-- that of the loop that looks up the page of every byte, when whether an address is mapped depends
-- on its page only.
pub strnlen_user-plain_scan :
    (m : Memory) (ptr max : ℕ) → PageWise m → strnlen_user m ptr max ≡ plain_scan m ptr max 0
unfolding strnlen_user
strnlen_user-plain_scan m ptr max wise = scan-plain_scan m ptr max 0 (2 ^ 64 - 1) wise (no_page m)
