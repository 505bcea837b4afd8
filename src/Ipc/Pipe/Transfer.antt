-- ===== src/Ipc/Pipe/Transfer.antt =====
-- What `write` and `read` do to the queue of a pipe.
use oxide_os.Prelude.{
  ℕ, zero, suc, ◌+◌, ◌-◌, ◌%◌, min, ◌≡◌, ◌≢◌, refl, ap, ◌∙◌, inl, inr, false, List, [], ◌∷◌, ◌++◌,
  append-nil, append_assoc, length, length-append, take, take-nil, drop, get_or, ◌==◌, Bool-cases,
  ==_iff, arith,
}
use oxide_os.Ipc.Pipe.{Pipe, put_byte, write_loop, read_loop, pipe_buf, available_write}
use oxide_os.Ipc.Pipe.Valid.{
  IsValid, contents, capacity, length-contents, put_byte-IsValid, contents-put_byte,
  contents-ne_empty, contents_of_empty,
}

-- The ends of a pipe and their reference counts are as before.
pub record SameEnds (p q : Pipe) : Type 0 where
  pub readers : q.read_refs ≡ p.read_refs
  pub writers : q.write_refs ≡ p.write_refs
  pub read_end : q.read_open ≡ p.read_open
  pub write_end : q.write_open ≡ p.write_open

-- What the loop of `write` has done, started at `p` with `done` bytes behind it.
pub record Wrote (p : Pipe) (bytes : List ℕ) (done : ℕ) (out : ℕ × Pipe) : Type 0 where
  pub valid : IsValid out.1
  pub count : out.0 ≡ done + min (length bytes) (capacity - length (contents p))
  pub queued : contents out.1 ≡ contents p ++ take (capacity - length (contents p)) bytes
  pub ends : SameEnds p out.1

length-put_byte :
    {p : Pipe} (x : ℕ)
    → IsValid p
    → available_write p ≢ 0
    → length (contents (put_byte p x)) ≡ length (contents p) + 1
length-put_byte {p} x v room =
    ap length (contents-put_byte x v room) ∙ length-append (contents p) (x ∷ [])

put_byte-SameEnds : (p : Pipe) (x : ℕ) → SameEnds p (put_byte p x)
unfolding put_byte
put_byte-SameEnds p x = record { readers = refl; writers = refl; read_end = refl; write_end = refl }

SameEnds-trans : {p q r : Pipe} → SameEnds p q → SameEnds q r → SameEnds p r
SameEnds-trans a b = record {
  readers = b.readers ∙ a.readers;
  writers = b.writers ∙ a.writers;
  read_end = b.read_end ∙ a.read_end;
  write_end = b.write_end ∙ a.write_end;
}

take-suc_pred : (n : ℕ) (x : ℕ) (xs : List ℕ) → n ≢ 0 → take n (x ∷ xs) ≡ x ∷ take (n - 1) xs
take-suc_pred zero x xs ne = absurd (ne refl)
take-suc_pred (suc n) x xs ne = ap (λ k. x ∷ take k xs) (omega arith)

pub write_loop-Wrote :
    (p : Pipe) (bytes : List ℕ) (done : ℕ)
    → IsValid p
    → Wrote p bytes done (write_loop p bytes done)
unfolding write_loop
write_loop-Wrote p [] done v = record {
  valid = v;
  count = omega arith;
  queued = rw (take-nil, append-nil);
  ends = record { readers = refl; writers = refl; read_end = refl; write_end = refl };
}
write_loop-Wrote p (x ∷ xs) done v = elim (Bool-cases (available_write p == 0)) [
  | inl full ↦ rw full (record {
    valid = v;
    count = omega (arith, length-contents p, (==_iff (available_write p) 0).0 full);
    queued =
        let none_left : capacity - length (contents p) ≡ 0 =
          omega (arith, length-contents p, (==_iff (available_write p) 0).0 full) in
        rw (none_left, append-nil);
    ends = record { readers = refl; writers = refl; read_end = refl; write_end = refl };
  })
  | inr more ↦
      rw more
        (extend (room more) (write_loop-Wrote (put_byte p x) xs (done + 1) (put_byte-IsValid x v)))
]
  where
    room : (available_write p == 0) ≡ false → available_write p ≢ 0
    room more = ground arith

    extend :
        available_write p ≢ 0
        → Wrote (put_byte p x) xs (done + 1) (write_loop (put_byte p x) xs (done + 1))
        → Wrote p (x ∷ xs) done (write_loop (put_byte p x) xs (done + 1))
    extend r w = record {
      valid = w.valid;
      count = omega (arith, w.count, length-put_byte x v r, length-contents p, r);
      queued =
          let left : capacity - length (contents (put_byte p x))
              ≡ capacity - length (contents p) - 1 =
            omega (arith, length-put_byte x v r) in
          w.queued
          ∙ rw (
            left,
            contents-put_byte x v r,
            append_assoc,
            take-suc_pred (capacity - length (contents p)) x xs
                (omega (arith, length-contents p, r)),
          );
      ends = SameEnds-trans (put_byte-SameEnds p x) w.ends;
    }

-- What the loop of `read` has done with `room` bytes of buffer.
pub record Took (p : Pipe) (room : ℕ) (out : List ℕ × Pipe) : Type 0 where
  pub valid : IsValid out.1
  pub bytes : out.0 ≡ take room (contents p)
  pub left : contents out.1 ≡ drop room (contents p)
  pub ends : SameEnds p out.1

advance-IsValid : {p : Pipe} → IsValid p → IsValid (record p { head = (p.head + 1) % pipe_buf })
advance-IsValid v = record {
  storage = v.storage;
  head_in = omega arith;
  tail_in = v.tail_in;
  readers = v.readers;
  writers = v.writers;
  read_counted = v.read_counted;
  write_counted = v.write_counted;
}

drop-nil : (n : ℕ) → drop {A = ℕ} n [] ≡ []
drop-nil zero = refl
drop-nil (suc n) = refl

pub read_loop-Took : (room : ℕ) (p : Pipe) → IsValid p → Took p room (read_loop room p)
unfolding read_loop
read_loop-Took zero p v = record {
  valid = v;
  bytes = refl;
  left = refl;
  ends = record { readers = refl; writers = refl; read_end = refl; write_end = refl };
}
read_loop-Took (suc room) p v = elim (Bool-cases (p.head == p.tail)) [
  | inl empty ↦ rw empty (nothing (contents_of_empty v ((==_iff p.head p.tail).0 empty)))
  | inr more ↦
      rw more
        (extend (contents-ne_empty v (ground arith)) (read_loop-Took room _ (advance-IsValid v)))
]
  where
    nothing : contents p ≡ [] → Took p (suc room) ([], p)
    nothing e = record {
      valid = v;
      bytes = rw e;
      left = e ∙ rw e;
      ends = record { readers = refl; writers = refl; read_end = refl; write_end = refl };
    }

    next : Pipe
    next = record p { head = (p.head + 1) % pipe_buf }

    extend :
        contents p ≡ get_or p.buf p.head 0 ∷ contents next
        → Took next room (read_loop room next)
        → Took p
            (suc room)
            (get_or p.buf p.head 0 ∷ (read_loop room next).0, (read_loop room next).1)
    extend e t = record {
      valid = t.valid;
      bytes = rw e (ap (◌∷◌ (get_or p.buf p.head 0)) t.bytes);
      left = rw e t.left;
      ends = record {
        readers = t.ends.readers;
        writers = t.ends.writers;
        read_end = t.ends.read_end;
        write_end = t.ends.write_end;
      };
    }
