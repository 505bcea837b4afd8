-- ===== src/Mem/Cow/Walk.antt =====
-- kernel/src/kernel/mem/paging_allocator.rs: the way from a table of level 4 to the last-level entry
-- of an address, and where it ends early.
use oxide_os.Prelude.{
  ℕ, ◌+◌, ◌*◌, ◌/◌, ◌%◌, ◌^◌, ◌≡◌, ◌⊎◌, inl, inr, refl, Bool, true, false, not, ◌||◌, none, some,
  Bool-cases,
}
use oxide_os.Mem.Flags.{has, present, addr}
use oxide_os.Mem.Cow.{Memory, walk}

-- The entry for an address in a table of level 4, 3, 2 or 1: nine bits of the address select it,
-- from bit 39, 30, 21 or 12 on.
abbrev pub select : ℕ → ℕ → ℕ → ℕ
select table shift va = addr table + 8 * (va / 2 ^ shift % 512)

abbrev pub entry4 : Memory → ℕ → ℕ → ℕ
entry4 m cr3 va = m (select cr3 39 va)

abbrev pub entry3 : Memory → ℕ → ℕ → ℕ
entry3 m cr3 va = m (select (entry4 m cr3 va) 30 va)

abbrev pub entry2 : Memory → ℕ → ℕ → ℕ
entry2 m cr3 va = m (select (entry3 m cr3 va) 21 va)

-- Where the last-level entry of an address is.
abbrev pub leaf_of : Memory → ℕ → ℕ → ℕ
leaf_of m cr3 va = select (entry2 m cr3 va) 12 va

-- An entry that names a table, not a huge page.
abbrev pub IsTable : ℕ → Type 0
IsTable e = (has e present ≡ true) × (has e (2 ^ 7) ≡ false)

abbrev pub NoTable : ℕ → Type 0
NoTable e = (has e present ≡ false) ⊎ (has e (2 ^ 7) ≡ true)

abbrev pub Mapped : Memory → ℕ → ℕ → Type 0
Mapped m cr3 va =
    (has (entry4 m cr3 va) present ≡ true) × IsTable (entry3 m cr3 va) × IsTable (entry2 m cr3 va)

abbrev pub Unmapped : Memory → ℕ → ℕ → Type 0
Unmapped m cr3 va =
    (has (entry4 m cr3 va) present ≡ false) ⊎ NoTable (entry3 m cr3 va) ⊎ NoTable (entry2 m cr3 va)

IsTable-or_not :
    (e : ℕ)
    → (IsTable e × ((not (has e present) || has e (2 ^ 7)) ≡ false))
      ⊎ (NoTable e × ((not (has e present) || has e (2 ^ 7)) ≡ true))
IsTable-or_not e = by_bits (has e present) (has e (2 ^ 7))
  where
    by_bits :
        (p h : Bool)
        → (((p ≡ true) × (h ≡ false)) × ((not p || h) ≡ false))
          ⊎ (((p ≡ false) ⊎ (h ≡ true)) × ((not p || h) ≡ true))
    by_bits true true = inr (inr refl, refl)
    by_bits true false = inl ((refl, refl), refl)
    by_bits false h = inr (inl refl, refl)

-- The walk finds the last-level entry where the tables above it are there, and only there.
pub walk_lem :
    (m : Memory) (cr3 va : ℕ)
    → ((walk m cr3 va ≡ none) × Unmapped m cr3 va)
      ⊎ ((walk m cr3 va ≡ some (leaf_of m cr3 va)) × Mapped m cr3 va)
unfolding walk
walk_lem m cr3 va = elim (Bool-cases (has (entry4 m cr3 va) present)) [
  | inr e ↦ inl (simp (walk, e) refl, inl e)
  | inl e ↦ elim (IsTable-or_not (entry3 m cr3 va)) [
    | inr (gone, f) ↦ inl (simp (walk, e, f) refl, inr (inl gone))
    | inl (up, f) ↦ elim (IsTable-or_not (entry2 m cr3 va)) [
      | inr (gone, g) ↦ inl (simp (walk, e, f, g) refl, inr (inr gone))
      | inl (low, g) ↦ inr (simp (walk, e, f, g) refl, (e, up, low))
    ]
  ]
]
