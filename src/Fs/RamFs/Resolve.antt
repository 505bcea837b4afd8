-- ===== src/Fs/RamFs/Resolve.antt =====
-- The lookup of paths in the RAM file system: what it finds, and what the changes of a file's
-- content and the push of a node do to it.
use oxide_os.Prelude.{
  ℕ, ◌<◌, Bool, true, ◌||◌, Option, none, some, List, [], ◌∷◌, ◌≡◌, inl, inr, refl, sym, ap, ◌∙◌,
  ==_self, if◌then◌else◌, Bool-cases, length, find_index-set_same, find_index-some, arith,
}
use oxide_os.Fs.Path.{FilePath, root_path, is_nil, text_eq, split_slash, strip_slash}
use oxide_os.Fs.RamFs.{RamFs, root_inode, is_child, find_child, resolve_from, resolve, set_content}

pub text_eq_self : (xs : List ℕ) → text_eq xs xs ≡ true
unfolding text_eq
text_eq_self [] = refl
text_eq_self (x ∷ xs) = simp (==_self x, text_eq_self xs)

find_child-set_content :
    (fs : RamFs) (i : ℕ) (bytes : List ℕ) (parent : ℕ) (name : FilePath)
    → find_child (set_content fs i bytes) parent name ≡ find_child fs parent name
unfolding find_child
find_child-set_content fs i bytes parent name =
    find_index-set_same (is_child parent name) root_inode fs i _ refl

resolve_from-set_content :
    (fs : RamFs) (i : ℕ) (bytes : List ℕ) (cur : ℕ) (parts : List FilePath)
    → resolve_from (set_content fs i bytes) cur parts ≡ resolve_from fs cur parts
unfolding resolve_from
resolve_from-set_content fs i bytes cur [] = refl
resolve_from-set_content fs i bytes cur ([] ∷ parts) = resolve_from-set_content fs i bytes cur parts
resolve_from-set_content fs i bytes cur ((c ∷ cs) ∷ parts) =
    rw (resolve_from, find_child-set_content fs i bytes cur (c ∷ cs))
      (step (find_child fs cur (c ∷ cs)) (λ next. resolve_from-set_content fs i bytes next parts))
  where
    step :
        (o : Option ℕ)
        → ((next : ℕ)
            → resolve_from (set_content fs i bytes) next parts ≡ resolve_from fs next parts)
        → elim o [ none ↦ none | some next ↦ resolve_from (set_content fs i bytes) next parts ]
          ≡ elim o [ none ↦ none | some next ↦ resolve_from fs next parts ]
    step none rest = refl
    step (some next) rest = rest next

pub resolve-set_content :
    (fs : RamFs) (i : ℕ) (bytes : List ℕ) (path : FilePath)
    → resolve (set_content fs i bytes) path ≡ resolve fs path
unfolding resolve
resolve-set_content fs i bytes path =
    ap (λ o. if text_eq path root_path || is_nil path then some 0 else o)
      (resolve_from-set_content fs i bytes 0 (split_slash (strip_slash path)))

-- A path leads to an inode of the file system.
pub find_child-lt :
    (fs : RamFs) (parent : ℕ) (name : FilePath) {i : ℕ}
    → find_child fs parent name ≡ some i
    → i < length fs
unfolding find_child
find_child-lt fs parent name e = (find_index-some (is_child parent name) root_inode fs e).0

some-injective : {a b : ℕ} → some a ≡ some b → a ≡ b
some-injective e = cc

pub resolve_from-lt :
    (fs : RamFs) (cur : ℕ) (parts : List FilePath) {i : ℕ}
    → cur < length fs
    → resolve_from fs cur parts ≡ some i
    → i < length fs
unfolding resolve_from
resolve_from-lt fs cur [] h e = omega (arith, some-injective e)
resolve_from-lt fs cur ([] ∷ parts) h e = resolve_from-lt fs cur parts h e
resolve_from-lt fs cur ((c ∷ cs) ∷ parts) {i} h e =
    step (find_child fs cur (c ∷ cs)) (λ next. resolve_from-lt fs next parts) refl e
  where
    step :
        (o : Option ℕ)
        → ((next : ℕ) → next < length fs → resolve_from fs next parts ≡ some i → i < length fs)
        → find_child fs cur (c ∷ cs) ≡ o
        → elim o [ none ↦ none | some next ↦ resolve_from fs next parts ] ≡ some i
        → i < length fs
    step none rest q e' = cc
    step (some next) rest q e' = rest next (find_child-lt fs cur (c ∷ cs) q) e'

pub resolve-lt :
    (fs : RamFs) (path : FilePath) {i : ℕ}
    → 0 < length fs
    → resolve fs path ≡ some i
    → i < length fs
unfolding resolve
resolve-lt fs path {i} h e = elim (Bool-cases (text_eq path root_path || is_nil path)) [
  | inl b ↦ omega (arith, some-injective (sym (ap pick b) ∙ e))
  | inr b ↦ resolve_from-lt fs 0 (split_slash (strip_slash path)) h (sym (ap pick b) ∙ e)
]
  where
    pick : Bool → Option ℕ
    pick b = if b then some 0 else resolve_from fs 0 (split_slash (strip_slash path))
