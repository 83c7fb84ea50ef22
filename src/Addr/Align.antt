-- ===== src/Addr/Align.antt =====
-- Alignment by a bit mask is rounding to a multiple, for every power of two.
use Prim.Native.Nat.mul
use native.Mathlib.Nat.{
  suc-le-suc_iff, le-div_iff_mul-le, div-lt_iff_lt-mul, mul-le-mul_right, le_of_mul-le-mul_right,
  div-mul-le_self, lt-div-mul-add,
}
use testos.Base.{
  ℕ, suc, ◌+◌, ◌-◌, ◌*◌, ◌/◌, ◌^◌, ◌≤◌, ◌<◌, ◌≡◌, ◌⊎◌, inl, inr, le_or_lt, arith, ok, panic,
  u64_end, ◌==◌, sub-ok, add-ok,
}
use testos.Base.Bits.{bit_and-not_low, pow-pos}
use testos.Addr.{align_u64_down, align_u64_up, align_down, align_up, is_aligned_to}

-- The multiples of `2 ^ k` next to `x`, below and above.
abbrev pub floor_to : ℕ → ℕ → ℕ
floor_to k x = x / 2 ^ k * 2 ^ k

abbrev pub ceil_to : ℕ → ℕ → ℕ
ceil_to k x = floor_to k (x + (2 ^ k - 1))

pub align_u64_down-ok :
    (k x : ℕ) → k ≤ 64 → x < u64_end → align_u64_down x (2 ^ k) ≡ ok (floor_to k x)
unfolding align_u64_down
align_u64_down-ok k x hk hx = rw (sub-ok (2 ^ k) 1 (pow-pos k), bit_and-not_low 64 k x hk hx)

pub align_u64_up-ok :
    (k x : ℕ) → k ≤ 64 → x + (2 ^ k - 1) < u64_end → align_u64_up x (2 ^ k) ≡ ok (ceil_to k x)
align_u64_up-ok k x hk hx =
    unfold align_u64_up in
    rw (sub-ok (2 ^ k) 1 (pow-pos k), add-ok x (2 ^ k - 1) hx)
      (align_u64_down-ok k (x + (2 ^ k - 1)) hk hx)

align_u64_up-panic : (k x : ℕ) → u64_end ≤ x + (2 ^ k - 1) → align_u64_up x (2 ^ k) ≡ panic
unfolding align_u64_up
align_u64_up-panic k x h = rw (sub-ok (2 ^ k) 1 (pow-pos k)) (ground arith)

pub align_down-ok : (k x : ℕ) → k ≤ 64 → x < u64_end → align_down x (2 ^ k) ≡ ok (floor_to k x)
unfolding align_down
align_down-ok k x hk hx = align_u64_down-ok k x hk hx

pub align_up-ok :
    (k x : ℕ) → k ≤ 64 → x + (2 ^ k - 1) < u64_end → align_up x (2 ^ k) ≡ ok (ceil_to k x)
unfolding align_up
align_up-ok k x hk hx = align_u64_up-ok k x hk hx

pub is_aligned_to-ok :
    (k x : ℕ) → k ≤ 64 → x < u64_end → is_aligned_to x (2 ^ k) ≡ ok (x == floor_to k x)
unfolding is_aligned_to
is_aligned_to-ok k x hk hx = rw (align_down-ok k x hk hx)

pub floor-le : (k x : ℕ) → floor_to k x ≤ x
floor-le k x = div-mul-le_self x (2 ^ k)

pub floor_greatest : (k x m : ℕ) → m * 2 ^ k ≤ x → m * 2 ^ k ≤ floor_to k x
floor_greatest k x m h = mul-le-mul_right (2 ^ k) ((le-div_iff_mul-le (pow-pos k)).1 h)

pub le-ceil : (k x : ℕ) → x ≤ ceil_to k x
le-ceil k x = omega (arith, lt-div-mul-add {a = x + (2 ^ k - 1)} (pow-pos k), pow-pos k)

pub ceil_least : (k x m : ℕ) → x ≤ m * 2 ^ k → ceil_to k x ≤ m * 2 ^ k
ceil_least k x m h = mul-le-mul_right (2 ^ k) (
    suc-le-suc_iff.0
      ((div-lt_iff_lt-mul {y = suc m} (pow-pos k)).1 (omega (arith, mul.suc m (2 ^ k), pow-pos k))))

-- Rounding an address down to a power of two returns the greatest multiple that is not above it,
-- and rounding it up the least that is not below it, unless that overflows: then it panics.
pub align_bounds :
    (k x : ℕ)
    → k ≤ 64
    → x < u64_end
    → ((q : ℕ) × (align_down x (2 ^ k) ≡ ok (q * 2 ^ k))
        × (q * 2 ^ k ≤ x)
        × ((m : ℕ) → m * 2 ^ k ≤ x → m ≤ q))
      × (((q : ℕ) × (align_up x (2 ^ k) ≡ ok (q * 2 ^ k))
            × (x ≤ q * 2 ^ k)
            × ((m : ℕ) → x ≤ m * 2 ^ k → q ≤ m))
          ⊎ ((align_up x (2 ^ k) ≡ panic) × (u64_end ≤ x + (2 ^ k - 1))))
align_bounds k x hk hx = (
  (
    x / 2 ^ k,
    align_down-ok k x hk hx,
    floor-le k x,
    λ m h. le_of_mul-le-mul_right (floor_greatest k x m h) (pow-pos k),
  ),
  elim (le_or_lt u64_end (x + (2 ^ k - 1))) [
    | inl big ↦ inr (unfold align_up in align_u64_up-panic k x big, big)
    | inr small ↦ inl (
      (x + (2 ^ k - 1)) / 2 ^ k,
      align_up-ok k x hk small,
      le-ceil k x,
      λ m h. le_of_mul-le-mul_right (ceil_least k x m h) (pow-pos k),
    )
  ],
)
