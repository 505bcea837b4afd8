-- ===== src/Proc/Spawn/Inherit.antt =====
-- kernel/src/kernel/proc/scheduler.rs: what the loop of fork_task over the inherited descriptors
-- does to the reference counts of the pipes.
use oxide_os.Prelude.{
  ℕ, ◌+◌, ◌*◌, ◌<◌, min, ◌≡◌, ◌≢◌, refl, sym, ap, ap₂, ◌∙◌, Bool, true, false, ◌==◌, if◌then◌else◌,
  Option, none, some, [], ◌∷◌, ℤ, pos, negsuc, Bool-cases, inl, inr, ℕ_discrete, arith, set,
}
use oxide_os.Ipc.Pipe.{
  Pipe, Pipes, pipe_at, pipe_index, is_pipe_fd, is_read_fd, pipe_fd_base, pipe_count, add_ref_end,
  addref,
}
use oxide_os.Ipc.Pipe.Valid.{IsValid, AllValid}
use oxide_os.Ipc.Pipe.Fifo.{pipe_at-IsValid, pipe_at-set_self, pipe_at-set_ne}
use oxide_os.Ipc.Pipe.Refs.{addref-AllValid}
use oxide_os.Fs.FdTable.{FdEntry, FdTable, is_pipe}
use oxide_os.Proc.Spawn.{addref_entry, addref_all}

-- Whether a descriptor has the number `n`.
abbrev pub once : ℤ → ℕ → ℕ
once (pos a) n = if a == n then 1 else 0
once (negsuc _) n = 0

-- Whether a place of the table holds the pipe end of number `n`.
abbrev pub end_in : Option FdEntry → ℕ → ℕ
end_in none n = 0
end_in (some e) n = if is_pipe e.backend then once e.raw_fd n else 0

-- How many places of the table hold the pipe end of number `n`.
unfoldable pub ends : ℕ → FdTable → ℕ
ends n [] = 0
ends n (o ∷ rest) = end_in o n + ends n rest

-- The pipe with so many readers and writers more, up to 255 of each.
abbrev pub counted : Pipe → ℕ → ℕ → Pipe
counted p readers writers = record p {
  read_refs = min 255 (p.read_refs + readers);
  write_refs = min 255 (p.write_refs + writers);
}

-- Pipe `i` with a reader more for each place of the table that holds its read end, of number
-- 80 + 2 i, and a writer more for each that holds its write end, the number behind that.
abbrev pub inherited : FdTable → ℕ → Pipe → Pipe
inherited table i p =
    counted p (ends (pipe_fd_base + i * 2) table) (ends (pipe_fd_base + i * 2 + 1) table)

counted_none : (p : Pipe) (x y : ℕ) → IsValid p → x ≡ 0 → y ≡ 0 → counted p x y ≡ p
counted_none p x y v ex ey =
    ap₂ (λ a b. record p { read_refs = a; write_refs = b }) (omega (arith, v.readers, ex))
      (omega (arith, v.writers, ey))

counted-counted : (p : Pipe) (x y u w : ℕ) → counted (counted p x y) u w ≡ counted p (x + u) (y + w)
counted-counted p x y u w =
    ap₂ (λ a b. record p { read_refs = a; write_refs = b }) (omega arith) (omega arith)

outside :
    (fd : ℤ) (i : ℕ)
    → i < pipe_count
    → is_pipe_fd fd ≡ false
    → (once fd (pipe_fd_base + i * 2) ≡ 0) × (once fd (pipe_fd_base + i * 2 + 1) ≡ 0)
unfolding is_pipe_fd
outside (pos a) i h e = (ground (arith, h, e), ground (arith, h, e))
outside (negsuc a) i h e = (refl, refl)

other_pipe :
    (fd : ℤ) (i : ℕ)
    → is_pipe_fd fd ≡ true
    → pipe_index fd ≢ i
    → (once fd (pipe_fd_base + i * 2) ≡ 0) × (once fd (pipe_fd_base + i * 2 + 1) ≡ 0)
unfolding is_pipe_fd pipe_index
other_pipe (pos a) i e ne = (ground (arith, e, ne), ground (arith, e, ne))
other_pipe (negsuc a) i e ne = (refl, refl)

read_end :
    (fd : ℤ) (i : ℕ)
    → is_pipe_fd fd ≡ true
    → pipe_index fd ≡ i
    → is_read_fd fd ≡ true
    → (once fd (pipe_fd_base + i * 2) ≡ 1) × (once fd (pipe_fd_base + i * 2 + 1) ≡ 0)
unfolding is_pipe_fd pipe_index is_read_fd
read_end (pos a) i e at r = (ground (arith, e, at, r), ground (arith, e, at, r))
read_end (negsuc a) i e at r = absurd (cc e)

write_end :
    (fd : ℤ) (i : ℕ)
    → is_pipe_fd fd ≡ true
    → pipe_index fd ≡ i
    → is_read_fd fd ≡ false
    → (once fd (pipe_fd_base + i * 2) ≡ 0) × (once fd (pipe_fd_base + i * 2 + 1) ≡ 1)
unfolding is_pipe_fd pipe_index is_read_fd
write_end (pos a) i e at r = (ground (arith, e, at, r), ground (arith, e, at, r))
write_end (negsuc a) i e at r = absurd (cc e)

-- One reference more at a pipe: of the end that the descriptor names.
add_ref_end-counted :
    (b : Bool) (p : Pipe) (x y : ℕ)
    → IsValid p
    → (b ≡ true → (x ≡ 1) × (y ≡ 0))
    → (b ≡ false → (x ≡ 0) × (y ≡ 1))
    → add_ref_end b p ≡ counted p x y
unfolding add_ref_end
add_ref_end-counted true p x y v f g =
    ap₂ (λ a b. record p { read_refs = a; write_refs = b }) (omega (arith, (f refl).0))
      (omega (arith, v.writers, (f refl).1))
add_ref_end-counted false p x y v f g =
    ap₂ (λ a b. record p { read_refs = a; write_refs = b }) (omega (arith, v.readers, (g refl).0))
      (omega (arith, (g refl).1))

addref-counted :
    (pipes : Pipes) (fd : ℤ) (i : ℕ)
    → i < pipe_count
    → AllValid pipes
    → pipe_at (addref pipes fd) i
      ≡ counted
          (pipe_at pipes i)
          (once fd (pipe_fd_base + i * 2))
          (once fd (pipe_fd_base + i * 2 + 1))
unfolding addref
addref-counted pipes fd i h v = elim (Bool-cases (is_pipe_fd fd)) [
  | inr e ↦ simp e (sym (none_added (outside fd i h e)))
  | inl e ↦ simp e (elim (ℕ_discrete (pipe_index fd) i) [
    | no ne ↦ pipe_at-set_ne pipes (pipe_index fd) i _ ne ∙ sym (none_added (other_pipe fd i e ne))
    | yes at ↦
        ap (λ k. pipe_at (set pipes k (add_ref_end (is_read_fd fd) (pipe_at pipes k))) i) at
        ∙ pipe_at-set_self pipes i _ (omega (arith, h, v.0))
        ∙ add_ref_end-counted (is_read_fd fd) (pipe_at pipes i) _ _ valid (read_end fd i e at)
            (write_end fd i e at)
  ])
]
  where
    valid : IsValid (pipe_at pipes i)
    valid = pipe_at-IsValid pipes i h v

    none_added :
        (once fd (pipe_fd_base + i * 2) ≡ 0) × (once fd (pipe_fd_base + i * 2 + 1) ≡ 0)
        → counted
            (pipe_at pipes i)
            (once fd (pipe_fd_base + i * 2))
            (once fd (pipe_fd_base + i * 2 + 1))
          ≡ pipe_at pipes i
    none_added z = counted_none (pipe_at pipes i) _ _ valid z.0 z.1

entry-counted :
    (o : Option FdEntry) (pipes : Pipes) (i : ℕ)
    → i < pipe_count
    → AllValid pipes
    → AllValid (addref_entry o pipes)
      × (pipe_at (addref_entry o pipes) i
          ≡ counted
              (pipe_at pipes i)
              (end_in o (pipe_fd_base + i * 2))
              (end_in o (pipe_fd_base + i * 2 + 1)))
unfolding addref_entry
entry-counted none pipes i h v =
    (v, sym (counted_none (pipe_at pipes i) 0 0 (pipe_at-IsValid pipes i h v) refl refl))
entry-counted (some e) pipes i h v = elim (Bool-cases (is_pipe e.backend)) [
  | inl b ↦ simp b (addref-AllValid pipes v e.raw_fd, addref-counted pipes e.raw_fd i h v)
  | inr b ↦
      simp b (v, sym (counted_none (pipe_at pipes i) 0 0 (pipe_at-IsValid pipes i h v) refl refl))
]

-- The loop counts every inherited end, and changes nothing else of any pipe.
pub addref_all-inherited :
    (table : FdTable) (pipes : Pipes) (i : ℕ)
    → i < pipe_count
    → AllValid pipes
    → pipe_at (addref_all table pipes) i ≡ inherited table i (pipe_at pipes i)
unfolding addref_all ends
addref_all-inherited [] pipes i h v =
    sym (counted_none (pipe_at pipes i) 0 0 (pipe_at-IsValid pipes i h v) refl refl)
addref_all-inherited (o ∷ rest) pipes i h v =
    let one = entry-counted o pipes i h v in
    addref_all-inherited rest (addref_entry o pipes) i h one.0
    ∙ ap (inherited rest i) one.1
    ∙ counted-counted (pipe_at pipes i) _ _ _ _
