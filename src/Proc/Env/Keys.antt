-- ===== src/Proc/Env/Keys.antt =====
-- The keys of the environment: which entry has a key, and what an entry holds after a write.
use oxide_os.Prelude.{
  ℕ, ◌%◌, ◌^◌, ◌<◌, ◌≤◌, Bool, true, false, ◌&&◌, List, [], ◌∷◌, ◌++◌, ◌≡◌, ◌≢◌, inl, inr, refl,
  sym, ap, ap₂, ◌∙◌, ◌==◌, ==_iff, ==_self, Bool-cases, length, get_or, take, drop,
  take-length_append, arith,
}
use oxide_os.Proc.Env.{EnvEntry, max_key, max_val, bytes_eq, has_key, filled, bytes_copy}

and-true : (a b : Bool) → (a && b) ≡ true → (a ≡ true) × (b ≡ true)
and-true true b e = (refl, e)
and-true false b e = cc

bytes_eq-append : (xs rest : List ℕ) → bytes_eq (xs ++ rest) xs ≡ true
unfolding bytes_eq
bytes_eq-append [] rest = refl
bytes_eq-append (x ∷ xs) rest = simp (==_self x, bytes_eq-append xs rest) refl

-- Two keys of one length that agree with one array are the same.
bytes_eq-injective :
    (a xs ys : List ℕ)
    → length xs ≡ length ys
    → bytes_eq a xs ≡ true
    → bytes_eq a ys ≡ true
    → xs ≡ ys
unfolding bytes_eq
bytes_eq-injective a [] [] h e f = refl
bytes_eq-injective a [] (y ∷ ys) h e f = absurd (omega (arith, h))
bytes_eq-injective a (x ∷ xs) [] h e f = absurd (omega (arith, h))
bytes_eq-injective a (x ∷ xs) (y ∷ ys) h e f =
    let (e0, e1) = and-true (get_or a 0 0 == x) (bytes_eq (drop 1 a) xs) e in
    let (f0, f1) = and-true (get_or a 0 0 == y) (bytes_eq (drop 1 a) ys) f in
    ap₂ ◌∷◌ (sym ((==_iff (get_or a 0 0) x).0 e0) ∙ (==_iff (get_or a 0 0) y).0 f0)
      (bytes_eq-injective (drop 1 a) xs ys (omega (arith, h)) e1 f1)

-- An entry has at most one key.
pub has_key-injective :
    (xs ys : List ℕ) (e : EnvEntry) → has_key xs e ≡ true → has_key ys e ≡ true → xs ≡ ys
unfolding has_key
has_key-injective xs ys e p q =
    let (u, p') = and-true e.used ((e.key_len == length xs) && bytes_eq e.key xs) p in
    let (v, q') = and-true e.used ((e.key_len == length ys) && bytes_eq e.key ys) q in
    let (l, b) = and-true (e.key_len == length xs) (bytes_eq e.key xs) p' in
    let (m, c) = and-true (e.key_len == length ys) (bytes_eq e.key ys) q' in
    bytes_eq-injective e.key xs ys
      (sym ((==_iff e.key_len (length xs)).0 l) ∙ (==_iff e.key_len (length ys)).0 m) b c

pub has_key-other :
    (xs ys : List ℕ) (e : EnvEntry) → xs ≢ ys → has_key xs e ≡ true → has_key ys e ≡ false
has_key-other xs ys e ne p = elim (Bool-cases (has_key ys e)) [
  | inl q ↦ absurd (ne (has_key-injective xs ys e p q))
  | inr q ↦ q
]

pub has_key-filled :
    (key val : List ℕ) (e : EnvEntry) → length key ≤ max_key → has_key key (filled key val e) ≡ true
unfolding has_key filled
has_key-filled key val e h =
    simp (same, ==_self (length key), bytes_eq-append key (drop (length key) e.key)) refl
  where
    same : length key % 2 ^ 8 ≡ length key
    same = omega arith

pub value_of-copied :
    (val old : List ℕ)
    → length val ≤ max_val
    → take (length val % 2 ^ 16) (bytes_copy old val) ≡ val
value_of-copied val old h =
    ap (λ n. take n (bytes_copy old val)) same ∙ take-length_append val (drop (length val) old)
  where
    same : length val % 2 ^ 16 ≡ length val
    same = omega arith

-- A key and a value that setenv takes.
abbrev pub Fits : List ℕ → List ℕ → Type 0
Fits key val = (0 < length key) × (length key ≤ max_key) × (length val ≤ max_val)
