-- ===== src/Base/Masks.antt =====
-- The laws of `&` and `|` on native numbers that masks need, by the lowest digit.
use Prim.Native.Nat.{
  ℕ, zero, suc, ◌+◌, ◌/◌, ◌%◌, ◌≤◌, min, max, bit_and, bit_or, bit_and-bitwise, bit_or-bitwise,
}
use mathlib.Core.Path.{◌≡◌, ap}
use native.Mathlib.Nat.{le_refl}
use native.Mathlib.Omega.{arith}
use testos.Base.Bits.{bit_and_step, bit_or_step, no_bits}

bit_and-low_digit : (x y : ℕ) → bit_and x y % 2 ≡ min (x % 2) (y % 2)
bit_and-low_digit x y = omega (arith, bit_and_step x y)

bit_and-half : (x y : ℕ) → bit_and x y / 2 ≡ bit_and (x / 2) (y / 2)
bit_and-half x y = omega (arith, bit_and_step x y)

bit_or-low_digit : (x y : ℕ) → bit_or x y % 2 ≡ max (x % 2) (y % 2)
bit_or-low_digit x y = omega (arith, bit_or_step x y)

bit_or-half : (x y : ℕ) → bit_or x y / 2 ≡ bit_or (x / 2) (y / 2)
bit_or-half x y = omega (arith, bit_or_step x y)

pub bit_and-zero_left : (y : ℕ) → bit_and 0 y ≡ 0
bit_and-zero_left y = bit_and-bitwise 0 y

pub bit_or-zero_left : (y : ℕ) → bit_or 0 y ≡ y
bit_or-zero_left y = bit_or-bitwise 0 y

pub bit_and-zero_right : (x : ℕ) → bit_and x 0 ≡ 0
bit_and-zero_right x = no_bits x x (le_refl x)

or_zero : (n x : ℕ) → x ≤ n → bit_or x 0 ≡ x
or_zero zero x le = let e : x ≡ 0 = omega arith in rw e (bit_or-bitwise 0 0)
or_zero (suc n) x le = omega (arith, bit_or_step x 0, or_zero n (x / 2) (omega arith))

pub bit_or-zero_right : (x : ℕ) → bit_or x 0 ≡ x
bit_or-zero_right x = or_zero x x (le_refl x)

and_assoc : (n x y z : ℕ) → x ≤ n → bit_and (bit_and x y) z ≡ bit_and x (bit_and y z)
and_assoc zero x y z le =
    let e : x ≡ 0 = omega arith in
    rw (e, bit_and-zero_left y, bit_and-zero_left z, bit_and-zero_left (bit_and y z))
and_assoc (suc n) x y z le = omega (
  arith,
  bit_and_step (bit_and x y) z,
  bit_and_step x (bit_and y z),
  bit_and-low_digit x y,
  bit_and-low_digit y z,
  ap (λ t. bit_and t (z / 2)) (bit_and-half x y),
  ap (λ t. bit_and (x / 2) t) (bit_and-half y z),
  and_assoc n (x / 2) (y / 2) (z / 2) (omega arith),
)

pub bit_and_assoc : (x y z : ℕ) → bit_and (bit_and x y) z ≡ bit_and x (bit_and y z)
bit_and_assoc x y z = and_assoc x x y z (le_refl x)

and_or : (n x y z : ℕ) → x + y ≤ n → bit_and (bit_or x y) z ≡ bit_or (bit_and x z) (bit_and y z)
and_or zero x y z le =
    let e : x ≡ 0 = omega arith in
    rw (e, bit_or-zero_left y, bit_and-zero_left z, bit_or-zero_left (bit_and y z))
and_or (suc n) x y z le = omega (
  arith,
  bit_and_step (bit_or x y) z,
  bit_or_step (bit_and x z) (bit_and y z),
  bit_or-low_digit x y,
  bit_and-low_digit x z,
  bit_and-low_digit y z,
  ap (λ t. bit_and t (z / 2)) (bit_or-half x y),
  ap (λ t. bit_or t (bit_and y z / 2)) (bit_and-half x z),
  ap (λ t. bit_or (bit_and (x / 2) (z / 2)) t) (bit_and-half y z),
  and_or n (x / 2) (y / 2) (z / 2) (omega arith),
)

-- A mask of a union is the union of the masked parts.
pub bit_and-bit_or : (x y z : ℕ) → bit_and (bit_or x y) z ≡ bit_or (bit_and x z) (bit_and y z)
bit_and-bit_or x y z = and_or (x + y) x y z (le_refl (x + y))

or_absorb : (n x y z : ℕ) → x + z ≤ n → bit_or x (bit_or (bit_and x y) z) ≡ bit_or x z
or_absorb zero x y z le =
    let e : x ≡ 0 = omega arith in
    rw (e, bit_and-zero_left y, bit_or-zero_left z) (bit_or-zero_left z)
or_absorb (suc n) x y z le = omega (
  arith,
  bit_or_step x (bit_or (bit_and x y) z),
  bit_or_step x z,
  bit_or-low_digit (bit_and x y) z,
  bit_and-low_digit x y,
  ap (λ t. bit_or (x / 2) t) (bit_or-half (bit_and x y) z),
  ap (λ t. bit_or (x / 2) (bit_or t (z / 2))) (bit_and-half x y),
  or_absorb n (x / 2) (y / 2) (z / 2) (omega arith),
)

-- Bits that are set already add nothing.
pub bit_or-absorb : (x y z : ℕ) → bit_or x (bit_or (bit_and x y) z) ≡ bit_or x z
bit_or-absorb x y z = or_absorb (x + z) x y z (le_refl (x + z))
