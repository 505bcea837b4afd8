-- ===== src/Ipc/MsgQueue/Slots.antt =====
-- The table of queues as a map from names to the messages that wait.
use mathlib.Core.Option
use oxide_os.Prelude.{
  ℕ, ◌≡◌, ◌≢◌, ◌<◌, refl, sym, ap, subst, ◌∙◌, true, false, Option, none, some, List, length,
  length-set, get_or, set, get_or-set_self, get_or-set_ne, Bool-cases, inl, inr, find_index,
  find_index-some, find_index-none, find_index-set_same, find_index-set_new, find_index_of_none,
  arith, ℕ_discrete, dec_lt, get_or_outside, All-set,
}
use oxide_os.Ipc.MsgQueue.{Message, MessageQueue, Queues, new, queue_at, named, is_unused}
use oxide_os.Ipc.MsgQueue.Valid.{IsValid, IsUnique, TableValid, contents}

unfoldable pub pending : Queues → ℕ → Option (List Message)
pending queues id = Option.map (λ i. contents (queue_at queues i)) (find_index (named id) queues)

pub queue_at-set_self :
    (queues : Queues) (i : ℕ) (q : MessageQueue)
    → i < length queues
    → queue_at (set queues i q) i ≡ q
unfolding queue_at
queue_at-set_self queues i q h = get_or-set_self queues i q new h

pub queue_at-set_ne :
    (queues : Queues) (i j : ℕ) (q : MessageQueue)
    → i ≢ j
    → queue_at (set queues i q) j ≡ queue_at queues j
unfolding queue_at
queue_at-set_ne queues i j q ne = get_or-set_ne queues i j q new ne

pub found_queue :
    (queues : Queues) (id i : ℕ)
    → find_index (named id) queues ≡ some i
    → (i < length queues) × ((queue_at queues i).in_use ≡ true) × ((queue_at queues i).id ≡ id)
unfolding queue_at
found_queue queues id i e =
    let f = find_index-some (named id) new queues e in
    (f.0, ground (arith, f.1), ground (arith, f.1))

pub pending_found :
    (queues : Queues) (id i : ℕ)
    → find_index (named id) queues ≡ some i
    → pending queues id ≡ some (contents (queue_at queues i))
unfolding pending
pending_found queues id i e = rw e

pub pending_absent :
    (queues : Queues) (id : ℕ) → find_index (named id) queues ≡ none → pending queues id ≡ none
unfolding pending
pending_absent queues id e = rw e

-- The table after a call on the queue `id`: that name now has `c`, all others what they had.
pub record Changed (queues : Queues) (id : ℕ) (c : Option (List Message)) (after : Queues)
    : Type 0 where
  pub here : pending after id ≡ c
  pub others : (j : ℕ) → j ≢ id → pending after j ≡ pending queues j
  pub valid : TableValid after

pub unchanged :
    (queues : Queues) (id : ℕ) {c : Option (List Message)}
    → TableValid queues
    → pending queues id ≡ c
    → Changed queues id c queues
unchanged queues id v e = record { here = e; others = λ j ne. refl; valid = v }

named-true : (q : MessageQueue) (id : ℕ) → q.in_use ≡ true → q.id ≡ id → named id q ≡ true
named-true q id a b = ground arith

named-other : (q : MessageQueue) (id j : ℕ) → q.id ≡ id → j ≢ id → named j q ≡ false
named-other q id j a ne = elim (Bool-cases q.in_use) [ inl e ↦ ground arith | inr e ↦ ground arith ]

named-unused : (q : MessageQueue) (j : ℕ) → q.in_use ≡ false → named j q ≡ false
named-unused q j e = ground arith

-- The queue at one slot decides what a name that it does not have, before or after, finds.
pending_elsewhere :
    (queues : Queues) (i j : ℕ) (q : MessageQueue)
    → i < length queues
    → named j (queue_at queues i) ≡ false
    → named j q ≡ false
    → pending (set queues i q) j ≡ pending queues j
unfolding pending
pending_elsewhere queues i j q h before after =
    ap (Option.map (λ k. contents (queue_at (set queues i q) k))) same
    ∙ go (find_index (named j) queues) refl
  where
    same : find_index (named j) (set queues i q) ≡ find_index (named j) queues
    same = find_index-set_same (named j) new queues i q (after ∙ sym (unfold queue_at in before))

    go :
        (o : Option ℕ)
        → find_index (named j) queues ≡ o
        → Option.map (λ k. contents (queue_at (set queues i q) k)) o
          ≡ Option.map (λ k. contents (queue_at queues k)) o
    go none e = refl
    go (some k) e =
        let f = found_queue queues j k e in
        ap (λ m. some (contents m))
          (queue_at-set_ne queues i k q (λ s. cc (
            sym before
            ∙ ap (λ m. named j (queue_at queues m)) s
            ∙ named-true (queue_at queues k) j f.1 f.2)))

-- Fewer queues in use, under their old names, are still distinct.
IsUnique-of :
    (before after : Queues)
    → ((k : ℕ)
        → (queue_at after k).in_use ≡ true
        → ((queue_at before k).in_use ≡ true) × ((queue_at after k).id ≡ (queue_at before k).id))
    → IsUnique before
    → IsUnique after
IsUnique-of before after old u i j a b e =
    u i j (old i a).0 (old j b).0 (sym (old i a).1 ∙ e ∙ (old j b).1)

-- At each index of a written table stands the new queue or the old one.
pub at_index {ℓ} :
    (P : ℕ → MessageQueue → Type ℓ) (queues : Queues) (i : ℕ) (q : MessageQueue)
    → i < length queues
    → P i q
    → ((k : ℕ) → i ≢ k → P k (queue_at queues k))
    → (k : ℕ) → P k (queue_at (set queues i q) k)
at_index P queues i q h here there k = elim (ℕ_discrete i k) [
  | yes e ↦
      subst (λ m. P m (queue_at (set queues i q) m)) e (rw (queue_at-set_self queues i q h) here)
  | no ne ↦ rw (queue_at-set_ne queues i k q ne) (there k ne)
]

-- A write to the slot of a queue that keeps its name and use.
pub same_name-Changed :
    (queues : Queues) (id i : ℕ) (q : MessageQueue)
    → TableValid queues
    → find_index (named id) queues ≡ some i
    → q.in_use ≡ true
    → q.id ≡ id
    → IsValid q
    → Changed queues id (some (contents q)) (set queues i q)
same_name-Changed queues id i q v e used name valid =
    let f = found_queue queues id i e in
    record {
      here =
          pending_found (set queues i q) id i (found_again f)
          ∙ ap (λ s. some (contents s)) (queue_at-set_self queues i q f.0);
      others = λ j ne.
          pending_elsewhere queues i j q f.0 (named-other (queue_at queues i) id j f.2 ne)
            (named-other q id j name ne);
      valid = record {
        slots = length-set queues i q ∙ v.slots;
        each = All-set IsValid queues i q valid v.each;
        unique =
            IsUnique-of queues (set queues i q)
              (at_index
                (λ k s.
                  s.in_use ≡ true
                  → ((queue_at queues k).in_use ≡ true) × (s.id ≡ (queue_at queues k).id))
                queues i q f.0 (λ _. (f.1, name ∙ sym f.2)) (λ k ne a. (a, refl)))
              v.unique;
      };
    }
  where
    found_again :
        (i < length queues) × ((queue_at queues i).in_use ≡ true) × ((queue_at queues i).id ≡ id)
        → find_index (named id) (set queues i q) ≡ some i
    found_again f =
        find_index-set_same (named id) new queues i q (
          named-true q id used name
          ∙ sym (unfold queue_at in named-true (queue_at queues i) id f.1 f.2))
        ∙ e

-- The slot of a queue given up: its name finds nothing any more, since no other slot has it.
pub unused-Changed :
    (queues : Queues) (id i : ℕ) (q : MessageQueue)
    → TableValid queues
    → find_index (named id) queues ≡ some i
    → q.in_use ≡ false
    → IsValid q
    → Changed queues id none (set queues i q)
unused-Changed queues id i q v e unused valid =
    let f = found_queue queues id i e in
    record {
      here =
          pending_absent (set queues i q) id (
            find_index_of_none (named id) new (set queues i q)
              (λ k h. unfold queue_at in gone f k));
      others = λ j ne.
          pending_elsewhere queues i j q f.0 (named-other (queue_at queues i) id j f.2 ne)
            (named-unused q j unused);
      valid = record {
        slots = length-set queues i q ∙ v.slots;
        each = All-set IsValid queues i q valid v.each;
        unique =
            IsUnique-of queues (set queues i q)
              (at_index
                (λ k s.
                  s.in_use ≡ true
                  → ((queue_at queues k).in_use ≡ true) × (s.id ≡ (queue_at queues k).id))
                queues i q f.0 (λ a. cc) (λ k ne a. (a, refl)))
              v.unique;
      };
    }
  where
    other :
        (queue_at queues i).in_use ≡ true
        → (queue_at queues i).id ≡ id
        → (k : ℕ) → i ≢ k
        → named id (queue_at queues k) ≡ false
    other a b k ne = elim (Bool-cases (named id (queue_at queues k))) [
      | inr r ↦ r
      | inl r ↦ absurd (ne (v.unique i k a (ground arith) (b ∙ ground arith)))
    ]

    gone :
        (i < length queues) × ((queue_at queues i).in_use ≡ true) × ((queue_at queues i).id ≡ id)
        → (k : ℕ) → named id (queue_at (set queues i q) k) ≡ false
    gone f =
        at_index (λ k s. named id s ≡ false) queues i q f.0 (named-unused q id unused)
          (other f.1 f.2)

-- A name that the search does not find is the name of no queue.
absent_name :
    (queues : Queues) (id : ℕ)
    → find_index (named id) queues ≡ none
    → (k : ℕ) → named id (queue_at queues k) ≡ false
unfolding queue_at
absent_name queues id e k = elim (dec_lt k (length queues)) [
  | yes h ↦ find_index-none (named id) new queues e k h
  | no h ↦ rw (get_or_outside queues k new (omega arith)) (unfold new in refl)
]

IsUnique-of_new :
    (queues : Queues) (id i : ℕ) (q : MessageQueue)
    → i < length queues
    → q.id ≡ id
    → ((k : ℕ) → named id (queue_at queues k) ≡ false)
    → IsUnique queues
    → IsUnique (set queues i q)
IsUnique-of_new queues id i q h name absent u k l a b e = elim (ℕ_discrete i k) [
  | yes p ↦ elim (ℕ_discrete i l) [
    | yes r ↦ sym p ∙ r
    | no r ↦ absurd (
        clash l (ap (λ (s : MessageQueue). s.in_use) (sym (old l r)) ∙ b)
          (sym (ap (λ (s : MessageQueue). s.id) (old l r)) ∙ sym e ∙ at_new k p))
  ]
  | no p ↦ elim (ℕ_discrete i l) [
    | yes r ↦ absurd (
        clash k (ap (λ (s : MessageQueue). s.in_use) (sym (old k p)) ∙ a)
          (sym (ap (λ (s : MessageQueue). s.id) (old k p)) ∙ e ∙ at_new l r))
    | no r ↦
        u k l (ap (λ (s : MessageQueue). s.in_use) (sym (old k p)) ∙ a)
          (ap (λ (s : MessageQueue). s.in_use) (sym (old l r)) ∙ b)
          (sym (ap (λ (s : MessageQueue). s.id) (old k p))
            ∙ e
            ∙ ap (λ (s : MessageQueue). s.id) (old l r))
  ]
]
  where
    old : (m : ℕ) → i ≢ m → queue_at (set queues i q) m ≡ queue_at queues m
    old m ne = queue_at-set_ne queues i m q ne

    at_new : (m : ℕ) → i ≡ m → (queue_at (set queues i q) m).id ≡ id
    at_new m p =
        ap (λ n. (queue_at (set queues i q) n).id) (sym p)
        ∙ ap (λ (s : MessageQueue). s.id) (queue_at-set_self queues i q h)
        ∙ name

    clash : (m : ℕ) → (queue_at queues m).in_use ≡ true → (queue_at queues m).id ≡ id → ⊥
    clash m x y = cc (sym (absent m) ∙ named-true (queue_at queues m) id x y)

-- A free slot taken under a name that no queue has.
pub claimed-Changed :
    (queues : Queues) (id i : ℕ) (q : MessageQueue)
    → TableValid queues
    → find_index (named id) queues ≡ none
    → find_index is_unused queues ≡ some i
    → q.in_use ≡ true
    → q.id ≡ id
    → IsValid q
    → Changed queues id (some (contents q)) (set queues i q)
claimed-Changed queues id i q v e free used name valid =
    let f = find_index-some is_unused new queues free in
    let absent = absent_name queues id e in
    record {
      here =
          pending_found (set queues i q) id i
            (find_index-set_new (named id) new queues i q f.0 e (named-true q id used name))
          ∙ ap (λ s. some (contents s)) (queue_at-set_self queues i q f.0);
      others = λ j ne.
          pending_elsewhere queues i j q f.0
            (named-unused (queue_at queues i) j
              (unfold queue_at in was_unused (get_or queues i new) f.1))
            (named-other q id j name ne);
      valid = record {
        slots = length-set queues i q ∙ v.slots;
        each = All-set IsValid queues i q valid v.each;
        unique = IsUnique-of_new queues id i q f.0 name absent v.unique;
      };
    }
  where
    was_unused : (s : MessageQueue) → is_unused s ≡ true → s.in_use ≡ false
    was_unused s t = ground arith
