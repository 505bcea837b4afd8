-- ===== src/Fs/Fat/File/Bytes.antt =====
-- The bytes of a sector as a list, and the parts of lists.
use oxide_os.Prelude.{
  ℕ, zero, suc, ◌+◌, ◌-◌, ◌<◌, ◌≤◌, ◌≡◌, refl, ap, ap₂, ◌∙◌, min, List, [], ◌∷◌, ◌++◌, length, take,
  drop, arith,
}
use oxide_os.Fs.Mbr.{Sector}
use oxide_os.Fs.Fat.File.{bytes_from}

drop-bytes_from :
    (buf : Sector) (k i n : ℕ)
    → k ≤ n
    → drop k (bytes_from buf i n) ≡ bytes_from buf (i + k) (n - k)
unfolding bytes_from
drop-bytes_from buf zero i n h = ap₂ (bytes_from buf) (omega arith) (omega arith)
drop-bytes_from buf (suc k) i zero h = absurd (omega arith)
drop-bytes_from buf (suc k) i (suc n) h =
    drop-bytes_from buf k (suc i) n (omega arith) ∙ ap₂ (bytes_from buf) (omega arith) (omega arith)

take-bytes_from :
    (buf : Sector) (k i n : ℕ) → take k (bytes_from buf i n) ≡ bytes_from buf i (min n k)
unfolding bytes_from
take-bytes_from buf zero i n = ap (bytes_from buf i) (let e : 0 ≡ min n 0 = omega arith in e)
take-bytes_from buf (suc k) i zero =
    ap (bytes_from buf i) (let e : 0 ≡ min 0 (suc k) = omega arith in e)
take-bytes_from buf (suc k) i (suc n) =
    ap (◌∷◌ (buf i)) (take-bytes_from buf k (suc i) n)
    ∙ ap (bytes_from buf i) (let e : suc (min n k) ≡ min (suc n) (suc k) = omega arith in e)

length-bytes_from : (buf : Sector) (i n : ℕ) → length (bytes_from buf i n) ≡ n
unfolding bytes_from
length-bytes_from buf i zero = refl
length-bytes_from buf i (suc n) = ap suc (length-bytes_from buf (suc i) n)

module _ {ℓ} {A : Type ℓ} where
  take-append : (k : ℕ) (xs ys : List A) → take k (xs ++ ys) ≡ take k xs ++ take (k - length xs) ys
  take-append zero xs ys = ap (λ n. take n ys) (let e : 0 ≡ 0 - length xs = omega arith in e)
  take-append (suc k) [] ys = ap (λ n. take n ys) (let e : suc k ≡ suc k - 0 = omega arith in e)
  take-append (suc k) (x ∷ xs) ys =
      ap (◌∷◌ x) (take-append k xs ys ∙ ap (λ n. take k xs ++ take n ys) (omega arith))

  drop-append : (k : ℕ) (xs ys : List A) → k ≤ length xs → drop k (xs ++ ys) ≡ drop k xs ++ ys
  drop-append zero xs ys h = refl
  drop-append (suc k) [] ys h = absurd (omega arith)
  drop-append (suc k) (x ∷ xs) ys h = drop-append k xs ys (omega arith)

-- What is left of a sector from `off` on, cut to `want`, and what follows it.
pub take-sector :
    (buf : Sector) (off want : ℕ) (rest : List ℕ)
    → off < 512
    → take want (drop off (bytes_from buf 0 512 ++ rest))
      ≡ bytes_from buf off (min (512 - off) want) ++ take (want - (512 - off)) rest
take-sector buf off want rest h =
    ap (take want) (
      drop-append off (bytes_from buf 0 512) rest (omega (arith, length-bytes_from buf 0 512))
      ∙ ap (λ x. x ++ rest) (drop-bytes_from buf off 0 512 (omega arith)))
    ∙ take-append want (bytes_from buf (0 + off) (512 - off)) rest
    ∙ ap₂ (λ x y. x ++ y)
        (take-bytes_from buf want (0 + off) (512 - off)
          ∙ ap (λ x. bytes_from buf x (min (512 - off) want)) (omega arith))
        (ap (λ n. take (want - n) rest) (length-bytes_from buf (0 + off) (512 - off)))
