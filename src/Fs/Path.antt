-- ===== src/Fs/Path.antt =====
-- Paths as lists of bytes: the functions of `str` that ramfs.rs applies to them, and its
-- `split_path`.
pub mod Split
use oxide_os.Prelude.{
  ℕ, zero, suc, ◌+◌, Bool, true, false, ◌&&◌, Option, none, some, List, [], ◌∷◌, ◌==◌,
  if◌then◌else◌, take, drop,
}

abbrev pub slash : ℕ
slash = b'/'

abbrev pub FilePath : Type 0
FilePath = List ℕ

abbrev pub root_path : FilePath
root_path = slash ∷ []

abbrev pub is_nil : List ℕ → Bool
is_nil [] = true
is_nil (_ ∷ _) = false

-- Equality of texts.
unfoldable pub text_eq : List ℕ → List ℕ → Bool
text_eq [] [] = true
text_eq [] (_ ∷ _) = false
text_eq (_ ∷ _) [] = false
text_eq (x ∷ xs) (y ∷ ys) = x == y && text_eq xs ys

unfoldable pub cons_head : ℕ → List FilePath → List FilePath
cons_head c [] = (c ∷ []) ∷ []
cons_head c (w ∷ ws) = (c ∷ w) ∷ ws

-- `path.split('/')`
unfoldable pub split_slash : FilePath → List FilePath
unfolding cons_head
split_slash [] = [] ∷ []
split_slash (c ∷ cs) =
    let rest = split_slash cs in if c == slash then [] ∷ rest else cons_head c rest

-- `if path.starts_with('/') { &path[1..] } else { path }`
unfoldable pub strip_slash : FilePath → FilePath
strip_slash [] = []
strip_slash (c ∷ cs) = if c == slash then cs else c ∷ cs

-- `path.trim_end_matches('/')`
unfoldable pub trim_end : FilePath → FilePath
trim_end [] = []
trim_end (c ∷ cs) = let rest = trim_end cs in if is_nil rest && c == slash then [] else c ∷ rest

-- `path.rfind('/')`
unfoldable pub rfind_slash : FilePath → Option ℕ
rfind_slash [] = none
rfind_slash (c ∷ cs) = elim (rfind_slash cs) [
  | some i ↦ some (suc i)
  | none ↦ if c == slash then some 0 else none
]

unfoldable pub split_path : FilePath → Option (FilePath × FilePath)
unfolding trim_end rfind_slash text_eq
split_path path =
    let trimmed = trim_end path in
    if is_nil trimmed
    then none
    else if text_eq trimmed root_path
    then none
    else elim (rfind_slash trimmed) [
      | none ↦ some (root_path, trimmed)
      | some position ↦ elim position [
        | zero ↦ some (root_path, drop 1 trimmed)
        | suc p ↦ some (take (suc p) trimmed, drop (suc p + 1) trimmed)
      ]
    ]
