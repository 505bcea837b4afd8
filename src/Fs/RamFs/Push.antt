-- ===== src/Fs/RamFs/Push.antt =====
-- The lookup of paths part by part, and after a node is pushed.
use oxide_os.Prelude.{
  ℕ, zero, suc, ◌+◌, Bool, true, false, Option, none, some, List, [], ◌∷◌, ◌++◌, ◌≡◌, ◌≢◌, inl, inr,
  refl, sym, ap, subst, ◌∙◌, if◌then◌else◌, Bool-cases, Option-cases, length, take, drop, replicate,
  append-nil, ==_self, ◌==◌, find_index-append, find_index-append_new, arith,
}
use oxide_os.Fs.Path.{
  FilePath, slash, root_path, is_nil, text_eq, split_slash, strip_slash, trim_end, rfind_slash,
  split_path,
}
use oxide_os.Fs.Path.Split.{
  text_eq-eq, split_slash-append, split_slash_single, rfind_slash_lem, trim_end_lem,
}
use oxide_os.Fs.RamFs.{RamFs, INode, root_inode, is_child, find_child, resolve_from, resolve}
use oxide_os.Fs.RamFs.Resolve.{text_eq_self}

-- A lookup that goes on from where another one ended.
pub then_from : RamFs → Option ℕ → List FilePath → Option ℕ
unfolding resolve_from
then_from fs none parts = none
then_from fs (some n) parts = resolve_from fs n parts

resolve_from_cons :
    (fs : RamFs) (cur : ℕ) (part : FilePath) (parts : List FilePath)
    → resolve_from fs cur (part ∷ parts)
      ≡ then_from fs (if is_nil part then some cur else find_child fs cur part) parts
unfolding resolve_from then_from
resolve_from_cons fs cur [] parts = refl
resolve_from_cons fs cur (c ∷ cs) parts = elim (Option-cases (find_child fs cur (c ∷ cs))) [
  | inl e ↦ simp (resolve_from, e) refl
  | inr (i, e) ↦ simp (resolve_from, e) refl
]

resolve_from-append :
    (fs : RamFs) (cur : ℕ) (xs ys : List FilePath)
    → resolve_from fs cur (xs ++ ys) ≡ then_from fs (resolve_from fs cur xs) ys
unfolding then_from
resolve_from-append fs cur [] ys = refl
resolve_from-append fs cur (x ∷ xs) ys =
    resolve_from_cons fs cur x (xs ++ ys)
    ∙ go (if is_nil x then some cur else find_child fs cur x) (λ n. resolve_from-append fs n xs ys)
    ∙ ap (λ o. then_from fs o ys) (sym (resolve_from_cons fs cur x xs))
  where
    go :
        (o : Option ℕ)
        → ((n : ℕ) → resolve_from fs n (xs ++ ys) ≡ then_from fs (resolve_from fs n xs) ys)
        → then_from fs o (xs ++ ys) ≡ then_from fs (then_from fs o xs) ys
    go none rest = refl
    go (some n) rest = rest n

-- Every path is looked up by its parts from the root, the root's own included.
pub resolve_lem :
    (fs : RamFs) (path : FilePath) → resolve fs path ≡ resolve_from fs 0 (split_slash path)
unfolding resolve resolve_from strip_slash split_slash
resolve_lem fs [] = refl
resolve_lem fs (c ∷ cs) = elim (Bool-cases (c == slash)) [
  | inr g ↦ simp g refl
  | inl g ↦ elim (Bool-cases (text_eq cs [])) [
    | inl h ↦ simp (g, h) (sym (ap (λ p. resolve_from fs 0 (split_slash p)) (text_eq-eq cs [] h)))
    | inr h ↦ simp (g, h) refl
  ]
]

resolve_slashes :
    (fs : RamFs) (cur k : ℕ) → resolve_from fs cur (split_slash (replicate k slash)) ≡ some cur
unfolding resolve_from split_slash
resolve_slashes fs cur zero = refl
resolve_slashes fs cur (suc k) = resolve_slashes fs cur k

then_some :
    (fs : RamFs) (o : Option ℕ) (parts : List FilePath)
    → ((n : ℕ) → resolve_from fs n parts ≡ some n)
    → then_from fs o parts ≡ o
unfolding then_from
then_some fs none parts h = refl
then_some fs (some n) parts h = h n

resolve-trailing :
    (fs : RamFs) (t : FilePath) (k : ℕ)
    → resolve_from fs 0 (split_slash (t ++ replicate k slash)) ≡ resolve_from fs 0 (split_slash t)
resolve-trailing fs t zero = ap (λ p. resolve_from fs 0 (split_slash p)) (append-nil t)
resolve-trailing fs t (suc k) =
    ap (resolve_from fs 0) (split_slash-append t (replicate k slash))
    ∙ resolve_from-append fs 0 (split_slash t) (split_slash (replicate k slash))
    ∙ then_some fs (resolve_from fs 0 (split_slash t)) (split_slash (replicate k slash))
        (λ n. resolve_slashes fs n k)

pub resolve-trim_end : (fs : RamFs) (path : FilePath) → resolve fs (trim_end path) ≡ resolve fs path
resolve-trim_end fs path =
    let (k, e) = trim_end_lem path in
    resolve_lem fs (trim_end path)
    ∙ sym (resolve-trailing fs (trim_end path) k)
    ∙ ap (λ p. resolve_from fs 0 (split_slash p)) (sym e)
    ∙ sym (resolve_lem fs path)

-- A path with its last part cut off at the last slash.
resolve-last :
    (fs : RamFs) (t : FilePath) (i : ℕ)
    → rfind_slash t ≡ some i
    → resolve fs t ≡ then_from fs (resolve fs (take i t)) (drop (suc i) t ∷ [])
resolve-last fs t i e =
    let (cut, last) = rfind_slash_lem t i e in
    resolve_lem fs t
    ∙ ap (λ p. resolve_from fs 0 (split_slash p)) cut
    ∙ ap (resolve_from fs 0) (split_slash-append (take i t) (drop (suc i) t))
    ∙ resolve_from-append fs 0 (split_slash (take i t)) (split_slash (drop (suc i) t))
    ∙ ap (then_from fs (resolve_from fs 0 (split_slash (take i t))))
        (split_slash_single (drop (suc i) t) last)
    ∙ ap (λ o. then_from fs o (drop (suc i) t ∷ [])) (sym (resolve_lem fs (take i t)))

-- What a path's directory and name mean for the lookup of the path.
abbrev Splits : RamFs → FilePath → Option (FilePath × FilePath) → Type 0
Splits fs path none = Unit
Splits fs path (some (dir, name)) = resolve fs path ≡ then_from fs (resolve fs dir) (name ∷ [])

resolve_root : (fs : RamFs) → resolve fs root_path ≡ some 0
unfolding resolve text_eq
resolve_root fs = refl

split_path-Splits : (fs : RamFs) (path : FilePath) → Splits fs path (split_path path)
unfolding split_path then_from resolve
split_path-Splits fs path = go (is_nil t) (text_eq t root_path) (rfind_slash t) refl
  where
    t : FilePath
    t = trim_end path

    at_root : FilePath → Option ℕ
    at_root name = then_from fs (resolve fs root_path) (name ∷ [])

    cut_at : Option ℕ → Option (FilePath × FilePath)
    cut_at o = elim o [
      | none ↦ some (root_path, t)
      | some position ↦ elim position [
        | zero ↦ some (root_path, drop 1 t)
        | suc p ↦ some (take (suc p) t, drop (suc p + 1) t)
      ]
    ]

    next : (p : ℕ) → suc p + 1 ≡ suc (suc p)
    next p = omega arith

    cut-Splits : (o : Option ℕ) → rfind_slash t ≡ o → Splits fs path (cut_at o)
    cut-Splits none e =
        sym (resolve-trim_end fs path)
        ∙ resolve_lem fs t
        ∙ ap (resolve_from fs 0) (split_slash_single t e)
        ∙ sym (ap (λ o. then_from fs o (t ∷ [])) (resolve_root fs))
    cut-Splits (some zero) e =
        sym (resolve-trim_end fs path)
        ∙ resolve-last fs t 0 e
        ∙ sym (ap (λ o. then_from fs o (drop 1 t ∷ [])) (resolve_root fs))
    cut-Splits (some (suc p)) e =
        sym (resolve-trim_end fs path)
        ∙ resolve-last fs t (suc p) e
        ∙ ap (λ n. then_from fs (resolve fs (take (suc p) t)) (drop n t ∷ [])) (sym (next p))

    go :
        (a b : Bool) (o : Option ℕ)
        → rfind_slash t ≡ o
        → Splits fs path (if a then none else if b then none else cut_at o)
    go true b o e = tt
    go false true o e = tt
    go false false o e = cut-Splits o e

pub resolve-split_path :
    (fs : RamFs) (path dir name : FilePath)
    → split_path path ≡ some (dir, name)
    → resolve fs path ≡ then_from fs (resolve fs dir) (name ∷ [])
resolve-split_path fs path dir name e = subst (Splits fs path) e (split_path-Splits fs path)

-- What is found stays found when a node is pushed.
find_child-append :
    (fs more : RamFs) (parent : ℕ) (name : FilePath) (i : ℕ)
    → find_child fs parent name ≡ some i
    → find_child (fs ++ more) parent name ≡ some i
unfolding find_child
find_child-append fs more parent name i e =
    find_index-append (is_child parent name) root_inode fs more i e

then_from-none :
    (fs : RamFs) (o : Option ℕ) (parts : List FilePath) {i : ℕ}
    → then_from fs o parts ≡ some i
    → (n : ℕ) × (o ≡ some n) × (resolve_from fs n parts ≡ some i)
unfolding then_from
then_from-none fs none parts e = cc
then_from-none fs (some n) parts e = (n, refl, e)

resolve_from-append_nodes :
    (fs more : RamFs) (cur : ℕ) (parts : List FilePath) (i : ℕ)
    → resolve_from fs cur parts ≡ some i
    → resolve_from (fs ++ more) cur parts ≡ some i
unfolding then_from resolve_from
resolve_from-append_nodes fs more cur [] i e = e
resolve_from-append_nodes fs more cur ([] ∷ parts) i e =
    resolve_from-append_nodes fs more cur parts i e
resolve_from-append_nodes fs more cur ((c ∷ cs) ∷ parts) i e =
    let (n, at, rest) =
      then_from-none fs (find_child fs cur (c ∷ cs)) parts
        (sym (resolve_from_cons fs cur (c ∷ cs) parts) ∙ e) in
    resolve_from_cons (fs ++ more) cur (c ∷ cs) parts
    ∙ ap (λ o. then_from (fs ++ more) o parts) (find_child-append fs more cur (c ∷ cs) n at)
    ∙ resolve_from-append_nodes fs more n parts i rest

pub resolve-append :
    (fs more : RamFs) (path : FilePath) (i : ℕ)
    → resolve fs path ≡ some i
    → resolve (fs ++ more) path ≡ some i
resolve-append fs more path i e =
    resolve_lem (fs ++ more) path
    ∙ resolve_from-append_nodes fs more 0 (split_slash path) i (sym (resolve_lem fs path) ∙ e)

-- A node pushed into its directory is what its path leads to.
pub resolve-pushed :
    (fs : RamFs) (path dir name : FilePath) (parent : ℕ) (node : INode)
    → resolve fs path ≡ none
    → split_path path ≡ some (dir, name)
    → resolve fs dir ≡ some parent
    → node.name ≡ name
    → node.parent_idx ≡ parent
    → resolve (fs ++ (node ∷ [])) path ≡ some (length fs)
unfolding then_from resolve_from find_child
resolve-pushed fs path dir name parent node absent split at named under =
    resolve-split_path (fs ++ (node ∷ [])) path dir name split
    ∙ ap (λ o. then_from (fs ++ (node ∷ [])) o (name ∷ []))
        (resolve-append fs (node ∷ []) dir parent at)
    ∙ last name refl not_there
  where
    not_there : resolve_from fs parent (name ∷ []) ≡ none
    not_there =
        sym (ap (λ o. then_from fs o (name ∷ [])) at)
        ∙ sym (resolve-split_path fs path dir name split)
        ∙ absent

    matches : (part : FilePath) → part ≡ name → is_child parent part node ≡ true
    matches part e = rw (named, under, e) (simp (==_self parent, text_eq_self name) refl)

    nothing : (part : FilePath) (o : Option ℕ) → then_from fs o [] ≡ none → o ≡ none
    nothing part none e = refl
    nothing part (some n) e = cc

    last :
        (part : FilePath)
        → part ≡ name
        → resolve_from fs parent (part ∷ []) ≡ none
        → resolve_from (fs ++ (node ∷ [])) parent (part ∷ []) ≡ some (length fs)
    last [] e h = absurd (some-none h)
      where
        some-none : some parent ≢ none
        some-none q = cc
    last (c ∷ cs) e h =
        resolve_from_cons (fs ++ (node ∷ [])) parent (c ∷ cs) []
        ∙ ap (λ o. then_from (fs ++ (node ∷ [])) o [])
            (find_index-append_new (is_child parent (c ∷ cs)) root_inode fs node
              (nothing (c ∷ cs) (find_child fs parent (c ∷ cs))
                (sym (resolve_from_cons fs parent (c ∷ cs) []) ∙ h))
              (matches (c ∷ cs) e))
