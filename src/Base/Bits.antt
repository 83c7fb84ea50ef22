-- ===== src/Base/Bits.antt =====
-- Laws of the native bit operations at variables, at every width.
use Prim.Native.Nat.{ℕ, zero, suc, ◌+◌, ◌-◌, ◌*◌, ◌/◌, ◌%◌, ◌^◌, ◌≤◌, ◌<◌, min}
use Prim.Native.Nat.{bit_and, bit_or, max, digits, bitwise, bit_and-bitwise, bit_or-bitwise}
use Prim.Native.Nat.add
use Prim.Native.Nat.mul
use mathlib.Core.Path.{◌≡◌, refl, ap, ◌∙◌}
use native.Mathlib.Nat.{
  le_refl, mod-eq_of_lt, mod-lt, div-add-mod, mul-add-mod_self_left, pow-suc, one-le-pow,
  div-div-eq-div-mul,
}
use mathlib.Core.Logic.{inl, inr}
use native.Mathlib.Omega.{arith}
use testos.Base.Tests.{le_or_lt}

-- What a native operation stands for takes the digits of its first argument one by one, on fuel.
-- Fuel beyond the value of that argument changes nothing.
spare_fuel :
    (z : ℕ → ℕ) (f : ℕ → ℕ → ℕ) (fuel x y : ℕ)
    → x ≤ fuel
    → digits z f (suc fuel) x y ≡ digits z f fuel x y
spare_fuel z f zero zero y enough = refl
spare_fuel z f zero (suc x) y enough = absurd (omega arith)
spare_fuel z f (suc fuel) zero y enough = refl
spare_fuel z f (suc fuel) (suc x) y enough =
    ap (λ t. t * 2 + f (suc x % 2) (y % 2)) (spare_fuel z f fuel (suc x / 2) (y / 2) (omega arith))

more_fuel :
    (z : ℕ → ℕ) (f : ℕ → ℕ → ℕ) (x y k fuel : ℕ)
    → fuel ≡ k + x
    → digits z f fuel x y ≡ bitwise z f x y
more_fuel z f x y zero fuel e = let same : fuel ≡ x = omega arith in rw same
more_fuel z f x y (suc k) zero e = absurd (omega arith)
more_fuel z f x y (suc k) (suc fuel) e =
    spare_fuel z f fuel x y (omega arith) ∙ more_fuel z f x y k fuel (omega arith)

first_digit :
    (z : ℕ → ℕ) (f : ℕ → ℕ → ℕ) (x y : ℕ)
    → bitwise z f (suc x) y ≡ bitwise z f (suc x / 2) (y / 2) * 2 + f (suc x % 2) (y % 2)
first_digit z f x y =
    ap (λ t. t * 2 + f (suc x % 2) (y % 2))
      (more_fuel z f (suc x / 2) (y / 2) (x - suc x / 2) x (omega arith))

-- The lowest digit of the result, and the rest of it.
pub bit_and_step : (x y : ℕ) → bit_and x y ≡ min (x % 2) (y % 2) + 2 * bit_and (x / 2) (y / 2)
bit_and_step zero y = omega (arith, bit_and-bitwise 0 y, bit_and-bitwise 0 (y / 2))
bit_and_step (suc x) y = omega (
  arith,
  first_digit (λ _. 0) min x y,
  bit_and-bitwise (suc x) y,
  bit_and-bitwise (suc x / 2) (y / 2),
)

pub bit_or_step : (x y : ℕ) → bit_or x y ≡ max (x % 2) (y % 2) + 2 * bit_or (x / 2) (y / 2)
bit_or_step zero y = omega (arith, bit_or-bitwise 0 y, bit_or-bitwise 0 (y / 2))
bit_or_step (suc x) y = omega (
  arith,
  first_digit (λ b. b) max x y,
  bit_or-bitwise (suc x) y,
  bit_or-bitwise (suc x / 2) (y / 2),
)

-- A mask of `n` low bits keeps a value that fits them.
pub bit_and-ones : (n a : ℕ) → a < 2 ^ n → bit_and a (2 ^ n - 1) ≡ a
bit_and-ones zero a h = let e : a ≡ 0 = omega arith in rw e refl
bit_and-ones (suc n) a h =
    ground
      (arith, bit_and_step a (2 ^ suc n - 1), pow-suc 2 n, one-le-pow n 2, bit_and-ones n (a / 2))

pub pow-pos : (k : ℕ) → 0 < 2 ^ k
pow-pos k = one-le-pow k 2 (omega arith)

pub pow_add : (n k : ℕ) → 2 ^ (n + k) ≡ 2 ^ n * 2 ^ k
pow_add zero k = let e : 0 + k ≡ k = omega arith in omega (arith, ap (λ (t : ℕ). 2 ^ t) e)
pow_add (suc n) k = omega (
  arith,
  ap (λ (t : ℕ). 2 ^ t) (add.suc n k),
  arith,
  pow-suc 2 n,
  pow-suc 2 (n + k),
  pow_add n k,
  ap (λ (t : ℕ). t * 2 ^ k) (pow-suc 2 n),
)

pow-split : (w k : ℕ) → k ≤ w → 2 ^ (w - k) * 2 ^ k ≡ 2 ^ w
pow-split w k h = let e : w - k + k ≡ w = omega arith in rw (← pow_add) (ap (λ (t : ℕ). 2 ^ t) e)

pred_suc : (p : ℕ) → suc p - 1 ≡ p
pred_suc p = omega arith

complement : (p q : ℕ) → p * q - 1 - (q - 1) ≡ (p - 1) * q
complement zero q = omega arith
complement (suc p) zero = omega arith
complement (suc p) (suc q) =
    omega (arith, mul.suc p (suc q), ap (λ (t : ℕ). t * suc q) (pred_suc p))

half_mask : (m k : ℕ) → m * 2 ^ suc k ≡ 2 * (m * 2 ^ k)
half_mask m k = omega (arith, ap (λ (t : ℕ). m * t) (pow-suc 2 k))

half_bound : (a m k : ℕ) → a < m * 2 ^ suc k → a / 2 < m * 2 ^ k
half_bound a m k h = omega (arith, half_mask m k)

-- A mask with `k` zeros under `n` ones clears the low `k` bits.
pub bit_and-high :
    (k n a : ℕ) → a < 2 ^ n * 2 ^ k → bit_and a ((2 ^ n - 1) * 2 ^ k) ≡ a / 2 ^ k * 2 ^ k
bit_and-high zero n a h = ground (arith, bit_and-ones n a)
bit_and-high (suc k) n a h = ground (
  arith,
  pow-suc 2 k,
  pow-pos k,
  bit_and_step a ((2 ^ n - 1) * 2 ^ suc k),
  half_mask (2 ^ n - 1) k,
  half_bound a (2 ^ n) k,
  div-div-eq-div-mul a 2 (2 ^ k),
  bit_and-high k n (a / 2),
)

-- The complement of `2 ^ k - 1` in `w` bits clears the low `k` bits.
pub bit_and-not_low :
    (w k a : ℕ) → k ≤ w → a < 2 ^ w → bit_and a (2 ^ w - 1 - (2 ^ k - 1)) ≡ a / 2 ^ k * 2 ^ k
bit_and-not_low w k a le h =
    ground (
      arith,
      pow-split w k le,
      pow-pos k,
      complement (2 ^ (w - k)) (2 ^ k),
      bit_and-high k (w - k) a,
    )

pub no_bits : (bound a : ℕ) → a ≤ bound → bit_and a 0 ≡ 0
no_bits zero a le = let e : a ≡ 0 = omega arith in rw e (bit_and-bitwise 0 0)
no_bits (suc bound) a le = elim (le_or_lt a 0) [
  | inl none_left ↦ let e : a ≡ 0 = omega arith in rw e (bit_and-bitwise 0 0)
  | inr more ↦ omega (arith, bit_and_step a 0, no_bits bound (a / 2) (omega arith))
]

mod_double : (a m : ℕ) → 0 < m → a % (2 * m) ≡ a % 2 + 2 * (a / 2 % m)
mod_double a m pos = rw at_low (mod-eq_of_lt (omega (arith, mod-lt (a / 2) pos)))
  where
    parts : a ≡ 2 * m * (a / 2 / m) + (a % 2 + 2 * (a / 2 % m))
    parts = omega (arith, div-add-mod (a / 2) m)

    at_low : a % (2 * m) ≡ (a % 2 + 2 * (a / 2 % m)) % (2 * m)
    at_low =
        ap (λ t. t % (2 * m)) parts
        ∙ mul-add-mod_self_left (2 * m) (a / 2 / m) (a % 2 + 2 * (a / 2 % m))

-- A mask of `n` low bits is a remainder.
pub bit_and-low : (n a : ℕ) → bit_and a (2 ^ n - 1) ≡ a % 2 ^ n
bit_and-low zero a = omega (arith, no_bits a a (le_refl a))
bit_and-low (suc n) a =
    let pos = pow-pos n in
    let double : 2 ^ suc n ≡ 2 * 2 ^ n = omega (arith, pow-suc 2 n) in
    let odd : (2 * 2 ^ n - 1) % 2 ≡ 1 = omega arith in
    let half : (2 * 2 ^ n - 1) / 2 ≡ 2 ^ n - 1 = omega arith in
    rw
      (
        double,
        mod_double a (2 ^ n) pos,
        bit_and_step a (2 * 2 ^ n - 1),
        odd,
        half,
        bit_and-low n (a / 2),
      )
      (omega arith)

-- A mask of `n` bits from bit `k` on.
pub bit_and-field : (k n a : ℕ) → bit_and a ((2 ^ n - 1) * 2 ^ k) ≡ a / 2 ^ k % 2 ^ n * 2 ^ k
bit_and-field zero n a =
    let one_mask : (2 ^ n - 1) * 2 ^ 0 ≡ 2 ^ n - 1 = omega arith in
    let whole : a / 2 ^ 0 ≡ a = omega arith in rw (one_mask, whole) (omega (arith, bit_and-low n a))
bit_and-field (suc k) n a =
    let even : 2 * ((2 ^ n - 1) * 2 ^ k) % 2 ≡ 0 = omega arith in
    let half : 2 * ((2 ^ n - 1) * 2 ^ k) / 2 ≡ (2 ^ n - 1) * 2 ^ k = omega arith in
    let power : 2 ^ suc k ≡ 2 * 2 ^ k = omega (arith, pow-suc 2 k) in
    let parts : a / 2 ^ suc k ≡ a / 2 / 2 ^ k = rw (power, div-div-eq-div-mul a 2 (2 ^ k)) in
    rw
      (
        half_mask (2 ^ n - 1) k,
        bit_and_step a (2 * ((2 ^ n - 1) * 2 ^ k)),
        even,
        half,
        bit_and-field k n (a / 2),
        parts,
        half_mask (a / 2 / 2 ^ k % 2 ^ n) k,
      )
      (omega arith)
