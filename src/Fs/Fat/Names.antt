-- ===== src/Fs/Fat/Names.antt =====
-- kernel/src/kernel/fs/fat.rs: strip_disk_prefix, component_to_83 and fat83_to_string. A string is
-- the list of its bytes in UTF-8.
use oxide_os.Prelude.{
  ℕ, zero, suc, ◌+◌, ◌-◌, ◌/◌, ◌%◌, ◌≤◌, ◌<◌, ◌≡◌, ◌≢◌, refl, sym, ap, ap₂, ◌∙◌, Bool, true, false,
  ◌&&◌, leb, ltb, ◌==◌, if◌then◌else◌, Option, none, some, List, [], ◌∷◌, ◌++◌, map, length, take,
  drop, arith, All,
}

abbrev pub upper : ℕ → ℕ
upper b = if leb 97 b && leb b 122 then b - 32 else b

abbrev pub lower : ℕ → ℕ
lower b = if leb 65 b && leb b 90 then b + 32 else b

-- The part before the first dot, and the part after it.
unfoldable pub name_part : List ℕ → List ℕ
name_part [] = []
name_part (b ∷ bs) = let rest = name_part bs in if b == b'.' then [] else b ∷ rest

unfoldable pub ext_part : List ℕ → List ℕ
ext_part [] = []
ext_part (b ∷ bs) = let rest = ext_part bs in if b == b'.' then bs else rest

-- The first `n` bytes in upper case, filled up with spaces.
unfoldable pub field : ℕ → List ℕ → List ℕ
field zero bs = []
field (suc n) [] = b' ' ∷ field n []
field (suc n) (b ∷ bs) = upper b ∷ field n bs

abbrev pub is_empty : List ℕ → Bool
is_empty [] = true
is_empty (_ ∷ _) = false

unfoldable pub component_to_83 : List ℕ → Option (List ℕ)
component_to_83 part =
    if is_empty part
    then none
    else if is_empty (name_part part)
    then none
    else some (field 8 (name_part part) ++ field 3 (ext_part part))

-- The bytes that a string grows by when it is given the character of a byte.
abbrev pub pushed : ℕ → List ℕ
pushed c = if ltb c 128 then c ∷ [] else (192 + c / 64) ∷ (128 + c % 64) ∷ []

unfoldable pub text : List ℕ → List ℕ
text [] = []
text (b ∷ bs) = pushed b ++ text bs

-- The name up to the first space, in lower case.
unfoldable pub name_chars : List ℕ → List ℕ
name_chars [] = []
name_chars (b ∷ bs) = let rest = name_chars bs in if b == b' ' then [] else pushed (lower b) ++ rest

-- The extension without the spaces at its end.
unfoldable pub trimmed : List ℕ → List ℕ
trimmed [] = []
trimmed (b ∷ bs) = let rest = trimmed bs in if is_empty rest && b == b' ' then [] else b ∷ rest

abbrev pub dotted : List ℕ → List ℕ
dotted [] = []
dotted (b ∷ bs) = b'.' ∷ (b ∷ bs)

unfoldable pub fat83_to_string : List ℕ → List ℕ → List ℕ
fat83_to_string name ext = name_chars name ++ dotted (text (map lower (trimmed ext)))

-- What follows the prefix, none where the bytes do not begin with it.
unfoldable pub after : List ℕ → List ℕ → Option (List ℕ)
after [] bs = some bs
after (p ∷ ps) [] = none
after (p ∷ ps) (b ∷ bs) = let rest = after ps bs in if b == p then rest else none

abbrev pub disk : List ℕ
disk = b'/' ∷ b'd' ∷ b'i' ∷ b's' ∷ b'k' ∷ []

abbrev pub without_slash : List ℕ → List ℕ
without_slash [] = []
without_slash (b ∷ bs) = if b == b'/' then bs else b ∷ bs

unfoldable pub strip_disk_prefix : List ℕ → List ℕ
unfolding after
strip_disk_prefix raw = elim (after (disk ++ b'/' ∷ []) raw) [
  | some rest ↦ rest
  | none ↦ elim (after disk raw) [ some [] ↦ [] | other ↦ without_slash raw ]
]

-- A byte of a name: ASCII, not a space and not the dot.
abbrev pub IsPlain : ℕ → Type 0
IsPlain b = (b ≢ b' ') × (b ≢ b'.') × (b < 128)

-- A name and an extension, as a path spells them.
abbrev pub join : List ℕ → List ℕ → List ℕ
join name ext = name ++ dotted ext

lower-upper : (b : ℕ) → lower (upper b) ≡ lower b
lower-upper b = ground arith

upper-lower : (b : ℕ) → upper (lower b) ≡ upper b
upper-lower b = ground arith

upper_plain : (b : ℕ) → b ≢ b' ' → (upper b == b' ') ≡ false
upper_plain b h = ground arith

dot_not : (b : ℕ) → b ≢ b'.' → (b == b'.') ≡ false
dot_not b h = ground arith

lower-IsPlain : (b : ℕ) → IsPlain b → IsPlain (lower b)
lower-IsPlain b h = (λ e. ground (arith, e, h.0), λ e. ground (arith, e, h.1), ground (arith, h.2))

map-lower-IsPlain : (bs : List ℕ) → All IsPlain bs → All IsPlain (map lower bs)
map-lower-IsPlain [] h = tt
map-lower-IsPlain (b ∷ bs) h = (lower-IsPlain b h.0, map-lower-IsPlain bs h.1)

pushed_ascii : (b : ℕ) → b < 128 → pushed b ≡ b ∷ []
pushed_ascii b h = ground (arith, h)

text_ascii : (bs : List ℕ) → All IsPlain bs → text bs ≡ bs
unfolding text
text_ascii [] h = refl
text_ascii (b ∷ bs) h = ap₂ (λ x y. x ++ y) (pushed_ascii b h.0.2) (text_ascii bs h.1)

field-lower : (n : ℕ) (bs : List ℕ) → field n (map lower bs) ≡ field n bs
unfolding field
field-lower zero bs = refl
field-lower (suc n) [] = refl
field-lower (suc n) (b ∷ bs) = ap₂ (λ x xs. x ∷ xs) (upper-lower b) (field-lower n bs)

name_chars_blank : (n : ℕ) → name_chars (field n []) ≡ []
unfolding name_chars field
name_chars_blank zero = refl
name_chars_blank (suc n) = refl

name_chars-field :
    (n : ℕ) (bs : List ℕ) → length bs ≤ n → All IsPlain bs → name_chars (field n bs) ≡ map lower bs
unfolding name_chars field
name_chars-field n [] h p = name_chars_blank n
name_chars-field zero (b ∷ bs) h p = absurd (omega arith)
name_chars-field (suc n) (b ∷ bs) h p = simp (upper_plain b p.0.0) (
    ap₂ (λ x y. x ++ y) (ap pushed (lower-upper b) ∙ pushed_ascii (lower b) (lower-IsPlain b p.0).2)
      (name_chars-field n bs (omega arith) p.1))

trimmed_blank : (n : ℕ) → trimmed (field n []) ≡ []
unfolding trimmed field
trimmed_blank zero = refl
trimmed_blank (suc n) = simp (trimmed_blank n) refl

trimmed-field :
    (n : ℕ) (bs : List ℕ) → length bs ≤ n → All IsPlain bs → trimmed (field n bs) ≡ map upper bs
unfolding trimmed field
trimmed-field n [] h p = trimmed_blank n
trimmed-field zero (b ∷ bs) h p = absurd (omega arith)
trimmed-field (suc n) (b ∷ bs) h p =
    simp (trimmed-field n bs (omega arith) p.1) (kept (map upper bs))
  where
    kept : (r : List ℕ) → (if is_empty r && upper b == b' ' then [] else upper b ∷ r) ≡ upper b ∷ r
    kept [] = simp (upper_plain b p.0.0) refl
    kept (x ∷ xs) = refl

name_part-join : (name ext : List ℕ) → All IsPlain name → name_part (join name ext) ≡ name
unfolding name_part
name_part-join [] [] p = refl
name_part-join [] (b ∷ bs) p = refl
name_part-join (b ∷ bs) ext p = simp (dot_not b p.0.1) (ap (◌∷◌ b) (name_part-join bs ext p.1))

ext_part-join : (name ext : List ℕ) → All IsPlain name → ext_part (join name ext) ≡ ext
unfolding ext_part
ext_part-join [] [] p = refl
ext_part-join [] (b ∷ bs) p = refl
ext_part-join (b ∷ bs) ext p = simp (dot_not b p.0.1) (ext_part-join bs ext p.1)

length-field : (n : ℕ) (bs : List ℕ) → length (field n bs) ≡ n
unfolding field
length-field zero bs = refl
length-field (suc n) [] = ap suc (length-field n [])
length-field (suc n) (b ∷ bs) = ap suc (length-field n bs)

split_at :
    (n : ℕ) (xs ys : List ℕ) → length xs ≡ n → (take n (xs ++ ys) ≡ xs) × (drop n (xs ++ ys) ≡ ys)
split_at zero [] ys e = (refl, refl)
split_at zero (x ∷ xs) ys e = absurd (omega (arith, e))
split_at (suc n) [] ys e = absurd (omega (arith, e))
split_at (suc n) (x ∷ xs) ys e =
    let r = split_at n xs ys (omega (arith, e)) in (ap (◌∷◌ x) r.0, r.1)

map-join : (name ext : List ℕ) → map lower (join name ext) ≡ join (map lower name) (map lower ext)
map-join [] [] = refl
map-join [] (b ∷ bs) = refl
map-join (b ∷ bs) ext = ap (◌∷◌ (lower b)) (map-join bs ext)

map-lower-upper : (bs : List ℕ) → map lower (map upper bs) ≡ map lower bs
map-lower-upper [] = refl
map-lower-upper (b ∷ bs) = ap₂ (λ x xs. x ∷ xs) (lower-upper b) (map-lower-upper bs)

-- The directory name of a name and an extension.
abbrev pub name83 : List ℕ → List ℕ → List ℕ
name83 name ext = field 8 name ++ field 3 ext

component-join :
    (name ext : List ℕ)
    → 0 < length name
    → All IsPlain name
    → component_to_83 (join name ext) ≡ some (name83 name ext)
unfolding component_to_83
component-join [] ext h p = absurd (omega arith)
component-join (b ∷ bs) ext h p =
    simp (component_to_83, name_part-join (b ∷ bs) ext p, ext_part-join (b ∷ bs) ext p) refl

lowered-name83 : (name ext : List ℕ) → name83 (map lower name) (map lower ext) ≡ name83 name ext
lowered-name83 name ext = ap₂ (λ x y. x ++ y) (field-lower 8 name) (field-lower 3 ext)

length-map-lower : (bs : List ℕ) → length (map lower bs) ≡ length bs
length-map-lower [] = refl
length-map-lower (b ∷ bs) = ap suc (length-map-lower bs)

-- A name of one to eight ASCII bytes and an extension of at most three, none a space or a dot: the
-- text and the text in lower case have one directory name, and that name is shown as the text in
-- lower case.
pub names-roundtrip :
    (name ext : List ℕ)
    → 0 < length name
    → length name ≤ 8
    → length ext ≤ 3
    → All IsPlain name
    → All IsPlain ext
    → (component_to_83 (join name ext) ≡ some (name83 name ext))
      × (component_to_83 (map lower (join name ext)) ≡ some (name83 name ext))
      × (fat83_to_string (take 8 (name83 name ext)) (drop 8 (name83 name ext))
          ≡ map lower (join name ext))
unfolding fat83_to_string
names-roundtrip name ext one eight three p q =
    let cut = split_at 8 (field 8 name) (field 3 ext) (length-field 8 name) in
    (
      component-join name ext one p,
      ap component_to_83 (map-join name ext)
          ∙ component-join (map lower name) (map lower ext) (omega (arith, length-map-lower name))
              (map-lower-IsPlain name p)
          ∙ ap some (lowered-name83 name ext),
      ap₂ fat83_to_string cut.0 cut.1
          ∙ ap₂ (λ x y. x ++ dotted (text (map lower y))) (name_chars-field 8 name eight p)
              (trimmed-field 3 ext three q)
          ∙ ap (λ y. map lower name ++ dotted y)
              (ap text (map-lower-upper ext) ∙ text_ascii (map lower ext) (map-lower-IsPlain ext q))
          ∙ sym (map-join name ext),
    )
