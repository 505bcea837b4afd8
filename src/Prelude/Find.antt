-- ===== src/Prelude/Find.antt =====
-- The search of an array for the first element that passes a test.
use Prim.Native.Nat.{ℕ, zero, suc, ◌<◌}
use mathlib.Core.Path.{◌≡◌, refl, ap, sym, subst, ◌∙◌}
use mathlib.Core.Logic.{◌⊎◌, ◌≢◌, inl, inr}
use mathlib.Core.Bool.{Bool, true, false}
use mathlib.Core.List.{List, [], ◌∷◌, ◌++◌}
use mathlib.Core.Option.{Option, none, some}
use mathlib.Core.Option
use native.Mathlib.Omega.{arith}
use oxide_os.Prelude.Tests.{if◌then◌else◌, Bool-cases}
use oxide_os.Prelude.Lists.{length, get_or, set}

module _ {ℓ} {A : Type ℓ} where
  -- `(0..n).find(|i| p(array[i]))`, and a loop that returns at the first such index.
  unfoldable pub find_index : (A → Bool) → List A → Option ℕ
  find_index p [] = none
  find_index p (x ∷ xs) = if p x then some 0 else Option.map suc (find_index p xs)

  -- The array has no such element, or the index is that of the first one.
  pub data Finds (p : A → Bool) (default : A) (xs : List A) : Option ℕ → Type ℓ where
    absent : ((k : ℕ) → k < length xs → p (get_or xs k default) ≡ false) → Finds p default xs none
    first :
        (k : ℕ)
        → k < length xs
        → p (get_or xs k default) ≡ true
        → ((j : ℕ) → j < k → p (get_or xs j default) ≡ false)
        → Finds p default xs (some k)

module _ {ℓ} {A : Type ℓ} (p : A → Bool) (default : A) where
  cons_absent :
      (x : A) (xs : List A)
      → p x ≡ false
      → ((k : ℕ) → k < length xs → p (get_or xs k default) ≡ false)
      → (k : ℕ) → k < suc (length xs)
      → p (get_or (x ∷ xs) k default) ≡ false
  cons_absent x xs e all zero h = e
  cons_absent x xs e all (suc k) h = all k (omega arith)

  cons_before :
      (x : A) (xs : List A) (k : ℕ)
      → p x ≡ false
      → ((j : ℕ) → j < k → p (get_or xs j default) ≡ false)
      → (j : ℕ) → j < suc k
      → p (get_or (x ∷ xs) j default) ≡ false
  cons_before x xs k e all zero h = e
  cons_before x xs k e all (suc j) h = all j (omega arith)

  cons-Finds :
      (x : A) (xs : List A) (o : Option ℕ)
      → p x ≡ false
      → Finds p default xs o
      → Finds p default (x ∷ xs) (Option.map suc o)
  cons-Finds x xs none e (absent all) = absent (cons_absent x xs e all)
  cons-Finds x xs (some k) e (first _ h t before) =
      first (suc k) (omega arith) t (cons_before x xs k e before)

  pub find_index-Finds : (xs : List A) → Finds p default xs (find_index p xs)
  unfolding find_index
  find_index-Finds [] = absent (λ k h. absurd (omega arith))
  find_index-Finds (x ∷ xs) = elim (Bool-cases (p x)) [
    | inl e ↦ simp e (first 0 (omega arith) e (λ j h. absurd (omega arith)))
    | inr e ↦ simp e (cons-Finds x xs (find_index p xs) e (find_index-Finds xs))
  ]

  -- A write that does not change the outcome of the test at its index does not change the search.
  pub find_index-set_same :
      (xs : List A) (i : ℕ) (v : A)
      → p v ≡ p (get_or xs i default)
      → find_index p (set xs i v) ≡ find_index p xs
  unfolding find_index
  find_index-set_same [] i v e = refl
  find_index-set_same (x ∷ xs) zero v e = rw e
  find_index-set_same (x ∷ xs) (suc i) v e = rw (find_index-set_same xs i v e)

  -- A first element that passes is found where it is written.
  pub find_index-set_new :
      (xs : List A) (i : ℕ) (v : A)
      → i < length xs
      → find_index p xs ≡ none
      → p v ≡ true
      → find_index p (set xs i v) ≡ some i
  unfolding find_index
  find_index-set_new [] i v h e t = absurd (omega arith)
  find_index-set_new (x ∷ xs) zero v h e t = rw t
  find_index-set_new (x ∷ xs) (suc i) v h e t = elim (Bool-cases (p x)) [
    | inl b ↦ ground (arith, b)
    | inr b ↦ simp b (
        ap (Option.map suc)
          (find_index-set_new xs i v (omega arith) (none_below (find_index p xs) (cut b)) t))
  ]
    where
      none_below : (o : Option ℕ) → Option.map suc o ≡ none → o ≡ none
      none_below none q = refl
      none_below (some k) q = cc

      cut : p x ≡ false → Option.map suc (find_index p xs) ≡ none
      cut b = sym (ap (λ c. if c then some 0 else Option.map suc (find_index p xs)) b) ∙ e

  pub find_index-some :
      (xs : List A) {i : ℕ}
      → find_index p xs ≡ some i
      → (i < length xs)
        × (p (get_or xs i default) ≡ true)
        × ((j : ℕ) → j < i → p (get_or xs j default) ≡ false)
  find_index-some xs {i} e = go (find_index-Finds xs) e
    where
      go :
          {o : Option ℕ}
          → Finds p default xs o
          → o ≡ some i
          → (i < length xs)
            × (p (get_or xs i default) ≡ true)
            × ((j : ℕ) → j < i → p (get_or xs j default) ≡ false)
      go (absent all) q = cc
      go (first k h t before) q =
          let same : k ≡ i = cc in
          subst
            (λ m.
              (m < length xs)
              × (p (get_or xs m default) ≡ true)
              × ((j : ℕ) → j < m → p (get_or xs j default) ≡ false))
            same (h, t, before)

  pub find_index-none :
      (xs : List A)
      → find_index p xs ≡ none
      → (k : ℕ) → k < length xs
      → p (get_or xs k default) ≡ false
  find_index-none xs e = go (find_index-Finds xs) e
    where
      go :
          {o : Option ℕ}
          → Finds p default xs o
          → o ≡ none
          → (k : ℕ) → k < length xs
          → p (get_or xs k default) ≡ false
      go (absent all) q = all
      go (first k h t before) q = cc

  pub find_index_of_none :
      (xs : List A)
      → ((k : ℕ) → k < length xs → p (get_or xs k default) ≡ false)
      → find_index p xs ≡ none
  find_index_of_none xs all = go (find_index-Finds xs)
    where
      go : {o : Option ℕ} → Finds p default xs o → o ≡ none
      go (absent _) = refl
      go (first k h t before) = cc (all k h)

  find_index_cons :
      (x : A) (xs : List A)
      → (p x ≡ true × (find_index p (x ∷ xs) ≡ some 0))
        ⊎ ((p x ≡ false) × (find_index p (x ∷ xs) ≡ Option.map suc (find_index p xs)))
  unfolding find_index
  find_index_cons x xs = elim (Bool-cases (p x)) [
    | inl b ↦ inl (b, simp b refl)
    | inr b ↦ inr (b, simp b refl)
  ]

  map-suc-none : (o : Option ℕ) → Option.map suc o ≡ none → o ≡ none
  map-suc-none none e = refl
  map-suc-none (some i) e = cc

  map-suc-some :
      (o : Option ℕ) (i : ℕ) → Option.map suc o ≡ some i → (j : ℕ) × (o ≡ some j) × (suc j ≡ i)
  map-suc-some none i e = cc
  map-suc-some (some j) i e = (j, refl, cc)

  -- What is found stays found when the array grows.
  pub find_index-append :
      (xs ys : List A) (i : ℕ) → find_index p xs ≡ some i → find_index p (xs ++ ys) ≡ some i
  unfolding find_index
  find_index-append [] ys i e = cc
  find_index-append (x ∷ xs) ys i e = elim (find_index_cons x xs) [
    | inl (b, q) ↦ simp b (sym q ∙ e)
    | inr (b, q) ↦
        let (j, at, same) = map-suc-some (find_index p xs) i (sym q ∙ e) in
        simp b (ap (Option.map suc) (find_index-append xs ys j at) ∙ ap some same)
  ]

  -- An element that passes is found at the end when no other one does.
  pub find_index-append_new :
      (xs : List A) (y : A)
      → find_index p xs ≡ none
      → p y ≡ true
      → find_index p (xs ++ (y ∷ [])) ≡ some (length xs)
  unfolding find_index
  find_index-append_new [] y e t = simp t refl
  find_index-append_new (x ∷ xs) y e t = elim (find_index_cons x xs) [
    | inl (b, q) ↦ absurd (some-none (sym q ∙ e))
    | inr (b, q) ↦ simp b (
        ap (Option.map suc)
          (find_index-append_new xs y (map-suc-none (find_index p xs) (sym q ∙ e)) t))
  ]
    where
      some-none : ◌≢◌ {A = Option ℕ} (some 0) none
      some-none q = cc
