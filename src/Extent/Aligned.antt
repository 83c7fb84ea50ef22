-- ===== src/Extent/Aligned.antt =====
-- `shrink_to_alignment` and `expand_to_alignment`: the largest aligned extent inside, and the
-- smallest outside.
use testos.Base.{
  ℕ, ◌+◌, ◌-◌, ◌*◌, ◌/◌, ◌^◌, ◌≤◌, ◌<◌, ◌≡◌, Option, none, some, arith, ltb, if◌then◌else◌, ok,
  u64_end, sub-ok, Bool-cases, inl, inr, ltb→lt, lt→ltb, refl,
}
use native.Mathlib.Nat.{mul-lt-mul_of_pos_right}
use testos.Base.Bits.{pow-pos}
use testos.Addr.Align.{
  floor_to, ceil_to, align_down-ok, align_up-ok, floor-le, le-ceil, floor_greatest, ceil_least,
}
use testos.Extent.{Extent, extent, shrink_to_alignment, expand_to_alignment}
use testos.Extent.Valid.{IsExtent, end_of, end_address-ok}

-- The aligned part of an extent.
abbrev pub shrunk : ℕ → Extent → Option Extent
shrunk k e =
    if ltb (ceil_to k e.address) (floor_to k (end_of e))
    then some (extent (ceil_to k e.address) (floor_to k (end_of e) - ceil_to k e.address))
    else none

-- `shrink_to_alignment` rounds the start up and the end down; it returns when rounding the start
-- up does not overflow.
pub shrink_to_alignment-eq-shrunk :
    (k : ℕ) (e : Extent)
    → k ≤ 64
    → IsExtent e
    → e.address + (2 ^ k - 1) < u64_end
    → shrink_to_alignment e (2 ^ k) ≡ ok (shrunk k e)
unfolding shrink_to_alignment
shrink_to_alignment-eq-shrunk k e hk v h =
    rw (align_up-ok k e.address hk h, end_address-ok e v.fits, align_down-ok k (end_of e) hk v.fits)
      (ground arith)

-- Whether an extent starts and ends at multiples of `2 ^ k`.
abbrev pub IsAligned : ℕ → Extent → Type 0
IsAligned k e = ((q : ℕ) × (e.address ≡ q * 2 ^ k)) × ((r : ℕ) × (end_of e ≡ r * 2 ^ k))

-- The aligned extent from `q * 2 ^ k` to `r * 2 ^ k` lies within an optional extent.
abbrev pub Within : ℕ → ℕ → ℕ → Option Extent → Type 0
Within k q r none = ⊥
Within k q r (some s) = (s.address ≤ q * 2 ^ k) × (r * 2 ^ k ≤ end_of s)

abbrev pub IsShrunk : ℕ → Extent → Option Extent → Type 0
IsShrunk k e none = Unit {0}
IsShrunk k e (some s) = IsExtent s × IsAligned k s × (e.address ≤ s.address) × (end_of s ≤ end_of e)

shrunk-IsShrunk : (k : ℕ) (e : Extent) → IsExtent e → IsShrunk k e (shrunk k e)
shrunk-IsShrunk k e v = elim (Bool-cases (ltb (ceil_to k e.address) (floor_to k (end_of e)))) [
  | inl holds ↦
      let lt = ltb→lt _ _ holds in
      rw holds (
        omega (arith, floor-le k (end_of e)),
        ((_, refl), ((end_of e) / 2 ^ k, omega arith)),
        le-ceil k e.address,
        omega (arith, floor-le k (end_of e)),
      )
  | inr fails ↦ rw fails tt
]

-- For an extent with an end address, and a start that rounds up to an address,
-- `shrink_to_alignment` returns an aligned extent inside it, and every non-empty aligned range
-- inside it lies within the result. So it returns `none` only if there is no such range.
pub shrink_largest :
    (k : ℕ) (e : Extent)
    → k ≤ 64
    → IsExtent e
    → e.address + (2 ^ k - 1) < u64_end
    → (o : Option Extent) × (shrink_to_alignment e (2 ^ k) ≡ ok o)
      × IsShrunk k e o
      × ((q r : ℕ) → q < r → e.address ≤ q * 2 ^ k → r * 2 ^ k ≤ end_of e → Within k q r o)
shrink_largest k e hk v h = (
  shrunk k e,
  shrink_to_alignment-eq-shrunk k e hk v h,
  shrunk-IsShrunk k e v,
  λ q r lt lo hi.
      let lower = ceil_least k e.address q lo in
      let upper = floor_greatest k (end_of e) r hi in
      let apart = mul-lt-mul_of_pos_right lt (pow-pos k) in
      rw (lt→ltb (ceil_to k e.address) (floor_to k (end_of e)) (omega arith)) (lower, omega arith),
)

-- For an extent whose end rounds up to an address, `expand_to_alignment` returns an aligned
-- extent around it, which lies within every aligned range around it.
pub expand_smallest :
    (k : ℕ) (e : Extent)
    → k ≤ 64
    → IsExtent e
    → end_of e + (2 ^ k - 1) < u64_end
    → (s : Extent) × (expand_to_alignment e (2 ^ k) ≡ ok s)
      × IsAligned k s
      × (s.address ≤ e.address)
      × (end_of e ≤ end_of s)
      × ((q r : ℕ)
          → q * 2 ^ k ≤ e.address
          → end_of e ≤ r * 2 ^ k
          → (q * 2 ^ k ≤ s.address) × (end_of s ≤ r * 2 ^ k))
expand_smallest k e hk v h = (
  extent start (stop - start),
  unfold expand_to_alignment in
      rw
        (
          align_down-ok k e.address hk (omega arith),
          end_address-ok e v.fits,
          align_up-ok k (end_of e) hk h,
          sub-ok stop start ordered,
        )
        refl,
  ((_, refl), (_, whole)),
  floor-le k e.address,
  omega (arith, le-ceil k (end_of e), whole),
  λ q r lo hi.
      (floor_greatest k e.address q lo, omega (arith, whole, ceil_least k (end_of e) r hi)),
)
  where
    start : ℕ
    start = floor_to k e.address

    stop : ℕ
    stop = ceil_to k (end_of e)

    ordered : start ≤ stop
    ordered = omega (arith, floor-le k e.address, le-ceil k (end_of e))

    whole : start + (stop - start) ≡ stop
    whole = omega (arith, ordered)
