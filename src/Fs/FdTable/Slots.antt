-- ===== src/Fs/FdTable/Slots.antt =====
-- The descriptors that the calls on the table give out and take back.
use oxide_os.Prelude.{
  ℕ, zero, suc, ◌+◌, ◌-◌, ◌<◌, ◌≤◌, true, false, Option, none, some, [], ◌∷◌, ◌≡◌, ◌≢◌, inl, inr,
  refl, sym, ap, ◌∙◌, Option-cases, length, get_or, drop, is_none, length-drop, find_index,
  find_index-some, find_index-none, arith,
}
use oxide_os.Fs.FdTable.{FdTable, FdEntry, entry_at, alloc_fd}

get_or-drop : (t : FdTable) (n i : ℕ) → get_or (drop n t) i none ≡ entry_at t (n + i)
get_or-drop t zero i = ap (entry_at t) (omega arith)
get_or-drop [] (suc n) i = refl
get_or-drop (x ∷ t) (suc n) i = get_or-drop t n i ∙ ap (entry_at (x ∷ t)) (shift n i)
  where
    shift : (n i : ℕ) → suc (n + i) ≡ suc n + i
    shift n i = omega arith

is_none-eq : (o : Option FdEntry) → is_none o ≡ true → o ≡ none
is_none-eq none e = refl
is_none-eq (some x) e = cc

is_none-ne : (o : Option FdEntry) → is_none o ≡ false → o ≢ none
is_none-ne none e = cc
is_none-ne (some x) e = λ q. cc

-- What the search for a descriptor gives: none, where all from 3 on are open, or the lowest that is
-- not open.
pub data Allocates (t : FdTable) : Option ℕ → Type 0 where
  full : ((fd : ℕ) → 3 ≤ fd → fd < length t → entry_at t fd ≢ none) → Allocates t none
  lowest :
      (fd : ℕ)
      → 3 ≤ fd
      → fd < length t
      → entry_at t fd ≡ none
      → ((k : ℕ) → 3 ≤ k → k < fd → entry_at t k ≢ none)
      → Allocates t (some fd)

offset : (k : ℕ) → 3 ≤ k → 3 + (k - 3) ≡ k
offset k h = omega arith

pub alloc_fd-Allocates : (t : FdTable) → Allocates t (alloc_fd t)
unfolding alloc_fd
alloc_fd-Allocates t = elim (Option-cases (find_index is_none (drop 3 t))) [
  | inl e ↦
      simp (alloc_fd, e)
        (full (λ fd h k q.
          is_none-ne (get_or (drop 3 t) (fd - 3) none)
            (find_index-none is_none none (drop 3 t) e (fd - 3) (omega (arith, length-drop 3 t)))
            (get_or-drop t 3 (fd - 3) ∙ ap (entry_at t) (offset fd h) ∙ q)))
  | inr (i, e) ↦
      let (lt, here, before) = find_index-some is_none none (drop 3 t) e in
      simp (alloc_fd, e)
        (lowest (3 + i) (omega arith) (omega (arith, length-drop 3 t, lt))
          (sym (get_or-drop t 3 i) ∙ is_none-eq (get_or (drop 3 t) i none) here)
          (λ k h l q.
            is_none-ne (get_or (drop 3 t) (k - 3) none) (before (k - 3) (omega arith))
              (get_or-drop t 3 (k - 3) ∙ ap (entry_at t) (offset k h) ∙ q)))
]
