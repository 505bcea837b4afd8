-- ===== src/Proc/Env/Lookup.antt =====
-- The environment as a map from keys to values: getenv after setenv.
use oxide_os.Prelude.{
  ℕ, ◌<◌, ◌≤◌, Bool, true, false, not, ◌||◌, Option, none, some, List, ◌≡◌, ◌≢◌, inl, inr, refl,
  sym, ap, ◌∙◌, ltb, ◌==◌, ==_iff, Bool-cases, Option-cases, length, set, get_or-set_self,
  get_or-set_ne, find_index, find_index-some, find_index-set_same, find_index-set_new, arith,
}
use oxide_os.Proc.Env.{
  EnvEntry, EnvTable, empty_entry, entry_at, max_key, max_val, has_key, is_free, value_of, getenv,
  setenv, removed, updated, filled,
}
use oxide_os.Proc.Env.Keys.{Fits, has_key-other, has_key-filled, value_of-copied}

-- What setenv does, one case for each of its ends.
pub data Sets (table : EnvTable) (key val : List ℕ) : Bool × EnvTable → Type 0 where
  failed : Sets table key val (false, table)
  absent : find_index (has_key key) table ≡ none → length val ≡ 0 → Sets table key val (true, table)
  changed :
      (i : ℕ)
      → i < length table
      → find_index (has_key key) table ≡ some i
      → 0 < length val
      → Sets table key val (true, set table i (updated val (entry_at table i)))
  deleted :
      (i : ℕ)
      → i < length table
      → find_index (has_key key) table ≡ some i
      → length val ≡ 0
      → Sets table key val (true, set table i (removed (entry_at table i)))
  added :
      (i : ℕ)
      → i < length table
      → find_index (has_key key) table ≡ none
      → is_free (entry_at table i) ≡ true
      → 0 < length val
      → length key ≤ max_key
      → Sets table key val (true, set table i (filled key val (entry_at table i)))

bad_key-Fits :
    (key val : List ℕ)
    → ((length key == 0) || (ltb max_key (length key) || ltb max_val (length val))) ≡ false
    → Fits key val
bad_key-Fits key val e = (ground (arith, e), ground (arith, e), ground (arith, e))

setenv-Sets : (table : EnvTable) (key val : List ℕ) → Sets table key val (setenv table key val)
unfolding setenv
setenv-Sets table key val =
    elim (Bool-cases
      ((length key == 0) || (ltb max_key (length key) || ltb max_val (length val)))) [
        | inl bad ↦ simp bad failed
        | inr bad ↦ simp bad (elim (Option-cases (find_index (has_key key) table)) [
          | inl e ↦ elim (Bool-cases (length val == 0)) [
            | inl z ↦ simp (e, z) (absent e ((==_iff (length val) 0).0 z))
            | inr z ↦ elim (Option-cases (find_index is_free table)) [
              | inl f ↦ simp (e, z, f) failed
              | inr (i, f) ↦
                  let (lt, free, before) = find_index-some is_free empty_entry table f in
                  simp (e, z, f)
                    (added i lt e free (ground (arith, z)) (bad_key-Fits key val bad).1)
            ]
          ]
          | inr (i, e) ↦
              let (lt, here, before) = find_index-some (has_key key) empty_entry table e in
              elim (Bool-cases (length val == 0)) [
                | inl z ↦ simp (e, z) (deleted i lt e ((==_iff (length val) 0).0 z))
                | inr z ↦ simp (e, z) (changed i lt e (ground (arith, z)))
              ]
        ])
      ]

-- The value at the index that a search gives.
found : EnvTable → Option ℕ → Option (List ℕ)
found table none = none
found table (some i) = some (value_of (entry_at table i))

getenv-found :
    (table : EnvTable) (key : List ℕ)
    → 0 < length key
    → length key ≤ max_key
    → getenv table key ≡ found table (find_index (has_key key) table)
unfolding getenv found
getenv-found table key pos_key short = simp fits (go (find_index (has_key key) table))
  where
    fits : ((length key == 0) || ltb max_key (length key)) ≡ false
    fits = ground arith

    go :
        (o : Option ℕ)
        → ◌≡◌ {A = Option (List ℕ)}
            (elim o [ none ↦ none | some i ↦ some (value_of (entry_at table i)) ])
            (found table o)
    go none = refl
    go (some i) = refl

-- A write at an index that another key does not have before or after is not seen through that key.
found-set_other :
    (table : EnvTable) (other : List ℕ) (i : ℕ) (e : EnvEntry)
    → has_key other e ≡ false
    → has_key other (entry_at table i) ≡ false
    → found (set table i e) (find_index (has_key other) (set table i e))
      ≡ found table (find_index (has_key other) table)
unfolding found
found-set_other table other i e new old =
    ap (found (set table i e))
      (find_index-set_same (has_key other) empty_entry table i e (new ∙ sym old))
    ∙ go (find_index (has_key other) table) refl
  where
    true-false : true ≢ false
    true-false q = cc

    go :
        (o : Option ℕ)
        → find_index (has_key other) table ≡ o
        → found (set table i e) o ≡ found table o
    go none q = refl
    go (some j) q =
        let at = (find_index-some (has_key other) empty_entry table q).1 in
        ap (λ x. some (value_of x))
          (get_or-set_ne table i j e empty_entry (λ same.
            true-false (sym at ∙ ap (λ k. has_key other (entry_at table k)) (sym same) ∙ old)))

has_key-free : (key : List ℕ) (e : EnvEntry) → is_free e ≡ true → has_key key e ≡ false
unfolding has_key
has_key-free key e free = elim (Bool-cases e.used) [
  | inl u ↦ absurd (clash (sym (ap not u) ∙ free))
  | inr u ↦ simp u refl
]
  where
    clash : false ≢ true
    clash q = cc

found-Sets_other :
    (table : EnvTable) (key val other : List ℕ) (r : Bool × EnvTable)
    → key ≢ other
    → Sets table key val r
    → found r.1 (find_index (has_key other) r.1) ≡ found table (find_index (has_key other) table)
unfolding has_key updated removed
found-Sets_other table key val other _ ne failed = refl
found-Sets_other table key val other _ ne (absent e z) = refl
found-Sets_other table key val other _ ne (changed i lt e p) =
    let old =
      has_key-other key other (entry_at table i) ne
        (find_index-some (has_key key) empty_entry table e).1 in
    found-set_other table other i (updated val (entry_at table i)) old old
found-Sets_other table key val other _ ne (deleted i lt e z) =
    found-set_other table other i (removed (entry_at table i)) refl (
      has_key-other key other (entry_at table i) ne
        (find_index-some (has_key key) empty_entry table e).1)
found-Sets_other table key val other _ ne (added i lt e free p short) =
    found-set_other table other i (filled key val (entry_at table i))
      (has_key-other key other (filled key val (entry_at table i)) ne
        (has_key-filled key val (entry_at table i) short))
      (has_key-free other (entry_at table i) free)

found-Sets_same :
    (table : EnvTable) (key val : List ℕ) (r : Bool × EnvTable)
    → 0 < length val
    → length val ≤ max_val
    → Sets table key val r
    → r.0 ≡ true
    → found r.1 (find_index (has_key key) r.1) ≡ some val
unfolding found has_key updated filled
found-Sets_same table key val _ p short failed q = cc
found-Sets_same table key val _ p short (absent e z) q = absurd (omega (arith, p, z))
found-Sets_same table key val _ p short (deleted i lt e z) q = absurd (omega (arith, p, z))
found-Sets_same table key val _ p short (changed i lt e _) q =
    ap (found (set table i (updated val (entry_at table i)))) (
      find_index-set_same (has_key key) empty_entry table i (updated val (entry_at table i)) refl
      ∙ e)
    ∙ ap (λ x. some (value_of x))
        (get_or-set_self table i (updated val (entry_at table i)) empty_entry lt)
    ∙ ap some (value_of-copied val (entry_at table i).val short)
found-Sets_same table key val _ p short (added i lt e free _ fits) q =
    ap (found (set table i (filled key val (entry_at table i)))) (
      find_index-set_new (has_key key) empty_entry table i (filled key val (entry_at table i)) lt e
        (has_key-filled key val (entry_at table i) fits))
    ∙ ap (λ x. some (value_of x))
        (get_or-set_self table i (filled key val (entry_at table i)) empty_entry lt)
    ∙ ap some (value_of-copied val (entry_at table i).val short)

-- After a setenv that succeeds with a value that is not empty, getenv of the key gives the value.
pub getenv-setenv :
    (table : EnvTable) (key val : List ℕ)
    → Fits key val
    → 0 < length val
    → (setenv table key val).0 ≡ true
    → getenv (setenv table key val).1 key ≡ some val
getenv-setenv table key val fits p q =
    getenv-found (setenv table key val).1 key fits.0 fits.1
    ∙ found-Sets_same table key val (setenv table key val) p fits.2 (setenv-Sets table key val) q

-- setenv, on every branch, leaves what getenv gives for every other key.
pub getenv-setenv_other :
    (table : EnvTable) (key val other : List ℕ)
    → key ≢ other
    → getenv (setenv table key val).1 other ≡ getenv table other
unfolding getenv
getenv-setenv_other table key val other ne =
    elim (Bool-cases ((length other == 0) || ltb max_key (length other))) [
      | inl bad ↦ simp bad refl
      | inr good ↦
          getenv-found (setenv table key val).1 other (ground (arith, good)) (ground (arith, good))
          ∙ found-Sets_other table key val other (setenv table key val) ne
              (setenv-Sets table key val)
          ∙ sym (getenv-found table other (ground (arith, good)) (ground (arith, good)))
    ]
