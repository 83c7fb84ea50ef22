-- ===== src/Base/Tables.antt =====
-- Statements about every number below a bound, checked by evaluation.
use Prim.Native.Nat.{ℕ, zero, suc, ◌<◌}
use mathlib.Core.Path.{◌≡◌}
use mathlib.Core.Bool.{Bool, true, false}
use native.Mathlib.Omega.{arith}
use testos.Base.Tests.{if◌then◌else◌}

unfoldable pub all_below : ℕ → (ℕ → Bool) → Bool
all_below zero test = true
all_below (suc bound) test = let rest = all_below bound test in if test bound then rest else false

pub all_below_sound :
    (bound : ℕ) (test : ℕ → Bool) (i : ℕ) → all_below bound test ≡ true → i < bound → test i ≡ true
unfolding all_below
all_below_sound zero test i holds inside = absurd (omega arith)
all_below_sound (suc bound) test i holds inside = ground (arith, all_below_sound bound test i)

-- Two and three nested ranges.
unfoldable pub all_below₂ : ℕ → ℕ → (ℕ → ℕ → Bool) → Bool
unfolding all_below
all_below₂ m n p = all_below m (λ x. all_below n (p x))

pub all_below₂_sound :
    (m n : ℕ) (p : ℕ → ℕ → Bool) (x y : ℕ) → all_below₂ m n p ≡ true → x < m → y < n → p x y ≡ true
all_below₂_sound m n p x y h hx hy =
    all_below_sound n (p x) y
      (all_below_sound m (λ x. all_below n (p x)) x (unfold all_below₂ in h) hx) hy
