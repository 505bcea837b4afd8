-- ===== src/Ipc/Pipe/Alloc.antt =====
-- What `alloc` promises: the lowest free slot, empty and with one reference to each end.
use oxide_os.Prelude.{
  ℕ, zero, suc, ◌+◌, ◌*◌, ◌≡◌, ◌<◌, ◌⊎◌, refl, sym, ap, subst, ◌∙◌, inl, inr, Bool, true, false,
  not, ◌&&◌, Option, none, some, [], ◌∷◌, length, set, get_or, ℤ, pos, Bool-cases, arith,
  All-get_or,
}
use oxide_os.Prelude.Circular
use oxide_os.Ipc.Pipe.{
  Pipe, Pipes, new, pipe_at, pipe_fd_base, pipe_buf, pipe_count, opened, alloc_from, alloc,
}
use oxide_os.Ipc.Pipe.Valid.{IsValid, AllValid, contents}
use oxide_os.Ipc.Pipe.Fifo.{Only, set-Only, set-AllValid, read_fd_of, write_fd_of}

abbrev pub is_free : Pipe → Bool
is_free p = not p.read_open && not p.write_open

opened-IsValid : {p : Pipe} → IsValid p → IsValid (opened p)
unfolding opened
opened-IsValid v = record {
  storage = v.storage;
  head_in = omega arith;
  tail_in = omega arith;
  readers = omega arith;
  writers = omega arith;
  read_counted = λ _. omega arith;
  write_counted = λ _. omega arith;
}

contents-opened : (p : Pipe) → contents (opened p) ≡ []
unfolding contents opened
contents-opened p = Circular.contents_empty 0 pipe_buf p.buf 0 (omega arith)

-- The two ways in which the search from slot `i` on ends.
abbrev Found : ℕ → Pipes → Option (ℤ × ℤ) × Pipes → Type 0
Found i pipes out =
    ((out ≡ (none, pipes)) × ((k : ℕ) → k < length pipes → is_free (get_or pipes k new) ≡ false))
    ⊎ ((k : ℕ) × (k < length pipes)
        × (is_free (get_or pipes k new) ≡ true)
        × ((j : ℕ) → j < k → is_free (get_or pipes j new) ≡ false)
        × (out ≡ (
          some (pos (pipe_fd_base + (i + k) * 2), pos (pipe_fd_base + (i + k) * 2 + 1)),
          set pipes k (opened (get_or pipes k new)),
        )))

alloc_from-Found : (i : ℕ) (pipes : Pipes) → Found i pipes (alloc_from i pipes)
unfolding alloc_from
alloc_from-Found i [] = inl (refl, λ k h. absurd (omega arith))
alloc_from-Found i (p ∷ ps) = elim (Bool-cases (is_free p)) [
  | inl free ↦
      inr (0, omega arith, free, λ j h. absurd (omega arith), simp free (here (omega arith)))
  | inr taken ↦ elim (alloc_from-Found (suc i) ps) [
    | inl (e, all) ↦ inl (simp taken (later e), λ k h. none_before k h taken all)
    | inr (k, h, free, before, e) ↦ inr (
      suc k,
      omega arith,
      free,
      λ j l. taken_before j k l taken before,
      simp taken (later e ∙ shift k),
    )
  ]
]
  where
    here :
        i ≡ i + 0
        → ◌≡◌ {A = Option (ℤ × ℤ) × Pipes}
            (some (pos (pipe_fd_base + i * 2), pos (pipe_fd_base + i * 2 + 1)), opened p ∷ ps)
            (
              some (pos (pipe_fd_base + (i + 0) * 2), pos (pipe_fd_base + (i + 0) * 2 + 1)),
              opened p ∷ ps,
            )
    here e =
        ap
          (λ (k : ℕ).
            (some (pos (pipe_fd_base + k * 2), pos (pipe_fd_base + k * 2 + 1)), opened p ∷ ps))
          e

    later :
        {out : Option (ℤ × ℤ) × Pipes}
        → alloc_from (suc i) ps ≡ out
        → ◌≡◌ {A = Option (ℤ × ℤ) × Pipes}
            ((alloc_from (suc i) ps).0, p ∷ (alloc_from (suc i) ps).1)
            (out.0, p ∷ out.1)
    later e = ap (λ (o : Option (ℤ × ℤ) × Pipes). (o.0, p ∷ o.1)) e

    shift :
        (k : ℕ)
        → ◌≡◌ {A = Option (ℤ × ℤ) × Pipes}
            (
              some (pos (pipe_fd_base + (suc i + k) * 2), pos (pipe_fd_base + (suc i + k) * 2 + 1)),
              p ∷ set ps k (opened (get_or ps k new)),
            )
            (
              some (pos (pipe_fd_base + (i + suc k) * 2), pos (pipe_fd_base + (i + suc k) * 2 + 1)),
              p ∷ set ps k (opened (get_or ps k new)),
            )
    shift k =
        let e : suc i + k ≡ i + suc k = omega arith in
        ap
          (λ (m : ℕ). (
            some (pos (pipe_fd_base + m * 2), pos (pipe_fd_base + m * 2 + 1)),
            p ∷ set ps k (opened (get_or ps k new)),
          ))
          e

    none_before :
        (k : ℕ)
        → k < suc (length ps)
        → is_free p ≡ false
        → ((j : ℕ) → j < length ps → is_free (get_or ps j new) ≡ false)
        → is_free (get_or (p ∷ ps) k new) ≡ false
    none_before zero h taken all = taken
    none_before (suc k) h taken all = all k (omega arith)

    taken_before :
        (j k : ℕ)
        → j < suc k
        → is_free p ≡ false
        → ((m : ℕ) → m < k → is_free (get_or ps m new) ≡ false)
        → is_free (get_or (p ∷ ps) j new) ≡ false
    taken_before zero k h taken before = taken
    taken_before (suc j) k h taken before = before j (omega arith)

pub alloc-AllValid : (pipes : Pipes) → AllValid pipes → AllValid (alloc pipes).1
unfolding alloc
alloc-AllValid pipes v = elim (alloc_from-Found 0 pipes) [
  | inl (e, all) ↦ subst (λ (o : Option (ℤ × ℤ) × Pipes). AllValid o.1) (sym e) v
  | inr (k, h, free, before, e) ↦
      subst (λ (o : Option (ℤ × ℤ) × Pipes). AllValid o.1) (sym e)
        (set-AllValid pipes k _ (opened-IsValid (All-get_or IsValid pipes k new h v.1)) v)
]

-- `alloc` fails exactly when no slot has both ends shut. Otherwise it takes the lowest such slot,
-- returns the descriptors of its ends, leaves the pipe there empty with both ends open and one
-- reference to each, and changes no other pipe.
pub alloc_lem :
    (pipes : Pipes)
    → AllValid pipes
    → ((alloc pipes ≡ (none, pipes))
        × ((k : ℕ) → k < pipe_count → is_free (pipe_at pipes k) ≡ false))
      ⊎ ((k : ℕ) × (k < pipe_count)
          × (is_free (pipe_at pipes k) ≡ true)
          × ((j : ℕ) → j < k → is_free (pipe_at pipes j) ≡ false)
          × ((alloc pipes).0 ≡ some (read_fd_of k, write_fd_of k))
          × Only pipes k (opened (pipe_at pipes k)) (alloc pipes).1
          × (contents (opened (pipe_at pipes k)) ≡ []))
unfolding alloc pipe_at
alloc_lem pipes v = elim (alloc_from-Found 0 pipes) [
  | inl (e, all) ↦ inl (e, λ k h. all k (omega arith))
  | inr (k, h, free, before, e) ↦ inr (
    k,
    omega arith,
    free,
    before,
    ap (λ o. o.0) (e ∙ at_zero k),
    subst (λ (o : Option (ℤ × ℤ) × Pipes). Only pipes k (opened (get_or pipes k new)) o.1) (sym e)
        (set-Only pipes k _ (omega arith) (opened-IsValid (All-get_or IsValid pipes k new h v.1))
          v),
    contents-opened (get_or pipes k new),
  )
]
  where
    at_zero :
        (k : ℕ)
        → ◌≡◌ {A = Option (ℤ × ℤ) × Pipes}
            (
              some (pos (pipe_fd_base + (0 + k) * 2), pos (pipe_fd_base + (0 + k) * 2 + 1)),
              set pipes k (opened (get_or pipes k new)),
            )
            (some (read_fd_of k, write_fd_of k), set pipes k (opened (get_or pipes k new)))
    at_zero k =
        let e : 0 + k ≡ k = omega arith in
        ap
          (λ (m : ℕ). (
            some (pos (pipe_fd_base + m * 2), pos (pipe_fd_base + m * 2 + 1)),
            set pipes k (opened (get_or pipes k new)),
          ))
          e
