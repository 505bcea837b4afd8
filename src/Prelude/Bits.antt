-- ===== src/Prelude/Bits.antt =====
-- The binary digits of the native numbers, and what the bit operations do to them.
use Prim.Native.Nat.{
  ℕ, zero, suc, ◌+◌, ◌-◌, ◌*◌, ◌/◌, ◌%◌, ◌^◌, ◌≤◌, ◌<◌, min, max, bit_and, bit_or, digits,
  bit_and-bitwise, bit_or-bitwise,
}
use mathlib.Core.Path.{◌≡◌, refl, sym, ap, ◌∙◌}
use mathlib.Core.Logic.{◌≢◌, ◌↔◌}
use native.Mathlib.Omega.{arith}
use native.Mathlib.Decide.{ℕ_discrete}

-- The digit of weight 2 ^ k.
unfoldable pub digit : ℕ → ℕ → ℕ
digit zero a = a % 2
digit (suc k) a = digit k (a / 2)

pub digit-lt : (k a : ℕ) → digit k a < 2
unfolding digit
digit-lt zero a = omega arith
digit-lt (suc k) a = digit-lt k (a / 2)

pub digit_of_zero : (k : ℕ) → digit k 0 ≡ 0
unfolding digit
digit_of_zero zero = refl
digit_of_zero (suc k) = digit_of_zero k

-- An operation on the digits one by one, where the first number alone decides how many are left.
module _ (rest : ℕ → ℕ) (f : ℕ → ℕ → ℕ) (bound : (x y : ℕ) → x < 2 → y < 2 → f x y < 2)
    (out : (k b : ℕ) → digit k (rest b) ≡ f 0 (digit k b)) where
  ended : (b k : ℕ) → digit k (rest b) ≡ f (digit k 0) (digit k b)
  ended b k = out k b ∙ ap (λ x. f x (digit k b)) (sym (digit_of_zero k))

  digit-digits : (n a b k : ℕ) → a ≤ n → digit k (digits rest f n a b) ≡ f (digit k a) (digit k b)
  unfolding digit
  digit-digits zero zero b k h = ended b k
  digit-digits zero (suc a) b k h = absurd (omega arith)
  digit-digits (suc n) zero b k h = ended b k
  digit-digits (suc n) (suc a) b zero h =
      lowest (digits rest f n (suc a / 2) (b / 2)) (f (suc a % 2) (b % 2))
        (bound (suc a % 2) (b % 2) (omega arith) (omega arith))
    where
      lowest : (x r : ℕ) → r < 2 → (x * 2 + r) % 2 ≡ r
      lowest x r l = omega arith
  digit-digits (suc n) (suc a) b (suc k) h =
      ap (digit k) (
        higher (digits rest f n (suc a / 2) (b / 2)) (f (suc a % 2) (b % 2))
          (bound (suc a % 2) (b % 2) (omega arith) (omega arith)))
      ∙ digit-digits n (suc a / 2) (b / 2) k (omega (arith, h))
    where
      higher : (x r : ℕ) → r < 2 → (x * 2 + r) / 2 ≡ x
      higher x r l = omega arith

pub digit-bit_and : (k a b : ℕ) → digit k (bit_and a b) ≡ min (digit k a) (digit k b)
digit-bit_and k a b =
    ap (digit k) (bit_and-bitwise a b)
    ∙ digit-digits (λ b. 0) min (λ x y p q. omega (arith, p, q))
        (λ k b. digit_of_zero k ∙ omega arith) a a b k (omega arith)

pub digit-bit_or : (k a b : ℕ) → digit k (bit_or a b) ≡ max (digit k a) (digit k b)
digit-bit_or k a b =
    ap (digit k) (bit_or-bitwise a b)
    ∙ digit-digits (λ b. b) max (λ x y p q. omega (arith, p, q)) (λ k b. omega arith) a a b k
        (omega arith)

double : (k : ℕ) → 2 ^ suc k ≡ 2 ^ k * 2
double k = omega arith

halve-double : (p : ℕ) → p * 2 / 2 ≡ p
halve-double p = omega arith

-- A power of two has one digit.
pub digit-pow : (k : ℕ) → digit k (2 ^ k) ≡ 1
unfolding digit
digit-pow zero = refl
digit-pow (suc k) =
    ap (λ p. digit k (p / 2)) (double k) ∙ ap (digit k) (halve-double (2 ^ k)) ∙ digit-pow k

pub digit-pow_other : (k j : ℕ) → j ≢ k → digit k (2 ^ j) ≡ 0
unfolding digit
digit-pow_other zero zero h = absurd (h refl)
digit-pow_other zero (suc j) h = omega (arith, double j)
digit-pow_other (suc k) zero h = digit_of_zero k
digit-pow_other (suc k) (suc j) h =
    ap (λ p. digit k (p / 2)) (double j)
    ∙ ap (digit k) (halve-double (2 ^ j))
    ∙ digit-pow_other k j (λ e. h (ap suc e))

-- The complement in a word of `w` bits.
pub digit-complement : (k w b : ℕ) → k < w → b < 2 ^ w → digit k (2 ^ w - 1 - b) ≡ 1 - digit k b
unfolding digit
digit-complement k zero b h l = absurd (omega (arith, h))
digit-complement zero (suc w) b h l = omega (arith, double w, l)
digit-complement (suc k) (suc w) b h l =
    ap (digit k) halved
    ∙ digit-complement k w (b / 2) (omega (arith, h)) (omega (arith, double w, l))
  where
    halved : (2 ^ suc w - 1 - b) / 2 ≡ 2 ^ w - 1 - b / 2
    halved = omega (arith, double w, l)

-- Numbers with the same digits are equal.
same_digits-le : (n a b : ℕ) → a ≤ n → b ≤ n → ((k : ℕ) → digit k a ≡ digit k b) → a ≡ b
unfolding digit
same_digits-le zero a b p q h = omega (arith, p, q)
same_digits-le (suc n) a b p q h = omega (
  arith,
  h 0,
  same_digits-le n (a / 2) (b / 2) (omega (arith, p)) (omega (arith, q)) (λ k. h (suc k)),
)

pub same_digits : (a b : ℕ) → ((k : ℕ) → digit k a ≡ digit k b) → a ≡ b
same_digits a b h = same_digits-le (a + b) a b (omega arith) (omega arith) h

-- `a & (1 << k) == 0`
pub bit_test : (a k : ℕ) → (bit_and a (2 ^ k) ≡ 0) ↔ (digit k a ≡ 0)
bit_test a k = (to, from)
  where
    to : bit_and a (2 ^ k) ≡ 0 → digit k a ≡ 0
    to e = omega (
      arith,
      digit-lt k a,
      digit-pow k,
      sym (digit-bit_and k a (2 ^ k)) ∙ ap (digit k) e ∙ digit_of_zero k,
    )

    other : (j : ℕ) → digit k a ≡ 0 → min (digit j a) (digit j (2 ^ k)) ≡ 0
    other j e = elim (ℕ_discrete k j) [
      | yes p ↦ omega (arith, sym (ap (λ i. digit i a) p) ∙ e)
      | no p ↦ omega (arith, digit-pow_other j k p)
    ]

    from : digit k a ≡ 0 → bit_and a (2 ^ k) ≡ 0
    from e =
        same_digits (bit_and a (2 ^ k)) 0
          (λ j. digit-bit_and j a (2 ^ k) ∙ other j e ∙ sym (digit_of_zero j))

pow_pos : (w : ℕ) → 0 < 2 ^ w
pow_pos zero = omega arith
pow_pos (suc w) = omega (arith, double w, pow_pos w)

pub pow_lt : (k w : ℕ) → k < w → 2 ^ k < 2 ^ w
pow_lt k zero h = absurd (omega (arith, h))
pow_lt zero (suc w) h = omega (arith, double w, pow_pos w)
pow_lt (suc k) (suc w) h = omega (arith, double w, double k, pow_lt k w (omega (arith, h)))

-- A number below 2 ^ w has no digits from w on.
pub digit_above : (k w a : ℕ) → a < 2 ^ w → w ≤ k → digit k a ≡ 0
unfolding digit
digit_above k zero a l h = ap (digit k) (below_one l) ∙ digit_of_zero k
  where
    below_one : a < 1 → a ≡ 0
    below_one p = omega (arith, p)
digit_above zero (suc w) a l h = absurd (omega (arith, h))
digit_above (suc k) (suc w) a l h =
    digit_above k w (a / 2) (omega (arith, double w, l)) (omega (arith, h))

-- `a & (1 << k) != 0`
pub bit_set : (a k : ℕ) → bit_and a (2 ^ k) ≢ 0 → digit k a ≡ 1
bit_set a k h = one (digit k a) (digit-lt k a) (λ e. h ((bit_test a k).1 e))
  where
    one : (x : ℕ) → x < 2 → x ≢ 0 → x ≡ 1
    one x l ne = omega (arith, l, ne)

-- A number without digits from w on is below 2 ^ w.
pub below_pow : (w n : ℕ) → ((k : ℕ) → w ≤ k → digit k n ≡ 0) → n < 2 ^ w
unfolding digit
below_pow zero n h = omega (arith, same_digits n 0 (λ k. h k (omega arith) ∙ sym (digit_of_zero k)))
below_pow (suc w) n h =
    omega (arith, double w, below_pow w (n / 2) (λ k l. h (suc k) (omega (arith, l))))
