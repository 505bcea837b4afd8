-- ===== src/Prelude/Loop.antt =====
-- Counted loops.
use Prim.Native.Nat.{ℕ, zero, suc}

-- `for i in i..i + n { s = body(i, s) }`
unfoldable pub for_range {ℓ} : {S : Type ℓ} → ℕ → ℕ → (ℕ → S → S) → S → S
for_range zero i body s = s
for_range (suc n) i body s = for_range n (suc i) body (body i s)

-- What every round keeps holds at the end.
pub for_range-keeps {ℓ κ} :
    {S : Type ℓ} (P : S → Type κ) (body : ℕ → S → S)
    → ((i : ℕ) (s : S) → P s → P (body i s))
    → (n i : ℕ) (s : S) → P s
    → P (for_range n i body s)
unfolding for_range
for_range-keeps P body keep zero i s p = p
for_range-keeps P body keep (suc n) i s p =
    for_range-keeps P body keep n (suc i) (body i s) (keep i s p)
