-- ===== src/Fs/Path/Split.antt =====
-- How the parts of a path come apart: at a slash, at its end and at the last slash.
use oxide_os.Prelude.{
  ℕ, suc, true, false, ◌&&◌, Option, none, some, List, [], ◌∷◌, ◌++◌, ◌≡◌, ◌≢◌, subst, inl, inr,
  refl, sym, ap, ap₂, ◌∙◌, ==_iff, if◌then◌else◌, Bool-cases, Option-cases, take, drop, replicate,
  ◌==◌,
}
use oxide_os.Fs.Path.{
  FilePath, slash, is_nil, text_eq, cons_head, split_slash, trim_end, rfind_slash,
}

pub text_eq-eq : (xs ys : List ℕ) → text_eq xs ys ≡ true → xs ≡ ys
unfolding text_eq
text_eq-eq [] [] e = refl
text_eq-eq [] (y ∷ ys) e = cc
text_eq-eq (x ∷ xs) [] e = cc
text_eq-eq (x ∷ xs) (y ∷ ys) e = elim (Bool-cases (x == y)) [
  | inl h ↦ cc ((==_iff x y).0 h, text_eq-eq xs ys (sym (ap (λ b. b && text_eq xs ys) h) ∙ e))
  | inr h ↦ absurd (false-true (sym (ap (λ b. b && text_eq xs ys) h) ∙ e))
]
  where
    false-true : false ≢ true
    false-true q = cc

split_slash_cons :
    (cs : FilePath) → (w : FilePath) × (ws : List FilePath) × (split_slash cs ≡ w ∷ ws)
unfolding split_slash cons_head
split_slash_cons [] = ([], [], refl)
split_slash_cons (c ∷ cs) = elim (Bool-cases (c == slash)) [
  | inl h ↦ ([], split_slash cs, simp h refl)
  | inr h ↦ let (w, ws, e) = split_slash_cons cs in (c ∷ w, ws, simp (h, e) refl)
]

cons_head-append :
    (c : ℕ) (xs ys : List FilePath)
    → (w : FilePath) × (ws : List FilePath) × (xs ≡ w ∷ ws)
    → cons_head c (xs ++ ys) ≡ cons_head c xs ++ ys
unfolding cons_head
cons_head-append c xs ys (w, ws, e) = rw e refl

-- The parts of two paths with a slash between.
pub split_slash-append :
    (a b : FilePath) → split_slash (a ++ (slash ∷ b)) ≡ split_slash a ++ split_slash b
unfolding split_slash
split_slash-append [] b = refl
split_slash-append (c ∷ cs) b = elim (Bool-cases (c == slash)) [
  | inl h ↦ simp h (ap (◌∷◌ []) (split_slash-append cs b))
  | inr h ↦ simp h (
      ap (cons_head c) (split_slash-append cs b)
      ∙ cons_head-append c (split_slash cs) (split_slash b) (split_slash_cons cs))
]

rfind_cons : ℕ → Option ℕ → Option ℕ
rfind_cons c (some i) = some (suc i)
rfind_cons c none = if c == slash then some 0 else none

rfind_slash_cons : (c : ℕ) (cs : FilePath) → rfind_slash (c ∷ cs) ≡ rfind_cons c (rfind_slash cs)
unfolding rfind_slash rfind_cons
rfind_slash_cons c cs = elim (Option-cases (rfind_slash cs)) [
  | inl e ↦ simp (rfind_slash, e) refl
  | inr (i, e) ↦ simp (rfind_slash, e) refl
]

rfind_cons-none :
    (c : ℕ) (o : Option ℕ) → rfind_cons c o ≡ none → (o ≡ none) × ((c == slash) ≡ false)
unfolding rfind_cons
rfind_cons-none c (some i) e = cc
rfind_cons-none c none e = elim (Bool-cases (c == slash)) [
  | inl h ↦ absurd (some-none (sym (ap (λ b. if b then some 0 else none) h) ∙ e))
  | inr h ↦ (refl, h)
]
  where
    some-none : {a : ℕ} → some a ≢ none
    some-none q = cc

-- A path with no slash is its only part.
pub split_slash_single : (b : FilePath) → rfind_slash b ≡ none → split_slash b ≡ b ∷ []
unfolding split_slash cons_head
split_slash_single [] e = refl
split_slash_single (c ∷ cs) e =
    let (n, h) = rfind_cons-none c (rfind_slash cs) (sym (rfind_slash_cons c cs) ∙ e) in
    simp (h, split_slash_single cs n) refl

-- What stands before the last slash, and behind it without one.
abbrev pub LastSlash : FilePath → ℕ → Type 0
LastSlash t i = (t ≡ take i t ++ (slash ∷ drop (suc i) t)) × (rfind_slash (drop (suc i) t) ≡ none)

pub rfind_slash_lem : (t : FilePath) (i : ℕ) → rfind_slash t ≡ some i → LastSlash t i
unfolding rfind_slash rfind_cons
rfind_slash_lem [] i e = cc
rfind_slash_lem (c ∷ cs) i e =
    step (rfind_slash cs) refl (rfind_slash_lem cs) (sym (rfind_slash_cons c cs) ∙ e)
  where
    step :
        (o : Option ℕ)
        → rfind_slash cs ≡ o
        → ((j : ℕ) → rfind_slash cs ≡ some j → LastSlash cs j)
        → rfind_cons c o ≡ some i
        → LastSlash (c ∷ cs) i
    step (some j) q rest e' =
        let same : suc j ≡ i = cc in
        subst (LastSlash (c ∷ cs)) same (ap (◌∷◌ c) (rest j q).0, (rest j q).1)
    step none q rest e' = elim (Bool-cases (c == slash)) [
      | inl h ↦
          let same : 0 ≡ i = some-inj (sym (ap (λ b. if b then some 0 else none) h) ∙ e') in
          subst (LastSlash (c ∷ cs)) same (ap (λ x. x ∷ cs) ((==_iff c slash).0 h), q)
      | inr h ↦ absurd (none-some (sym (ap (λ b. if b then some 0 else none) h) ∙ e'))
    ]
      where
        none-some : none ≢ some i
        none-some r = cc

        some-inj : some 0 ≡ some i → 0 ≡ i
        some-inj r = cc

-- Slashes at the end are cut off.
nil-of-is_nil : (xs : List ℕ) → is_nil xs ≡ true → xs ≡ []
nil-of-is_nil [] e = refl
nil-of-is_nil (x ∷ xs) e = cc

trim_end_cons :
    (c : ℕ) (cs : FilePath)
    → (k : ℕ) × (cs ≡ trim_end cs ++ replicate k slash)
    → (k : ℕ) × (c ∷ cs ≡ trim_end (c ∷ cs) ++ replicate k slash)
unfolding trim_end
trim_end_cons c cs (k, e) = elim (Bool-cases (is_nil (trim_end cs))) [
  | inr h ↦ (k, simp h (ap (◌∷◌ c) e))
  | inl h ↦ elim (Bool-cases (c == slash)) [
    | inl g ↦ (
      suc k,
      simp (h, g)
          (ap₂ ◌∷◌ ((==_iff c slash).0 g)
            (e ∙ ap (λ xs. xs ++ replicate k slash) (nil-of-is_nil (trim_end cs) h))),
    )
    | inr g ↦ (k, simp (h, g) (ap (◌∷◌ c) e))
  ]
]

pub trim_end_lem : (p : FilePath) → (k : ℕ) × (p ≡ trim_end p ++ replicate k slash)
unfolding trim_end
trim_end_lem [] = (0, refl)
trim_end_lem (c ∷ cs) = trim_end_cons c cs (trim_end_lem cs)
