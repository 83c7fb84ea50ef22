-- ===== src/Extent/Difference.antt =====
-- `left_difference`, `right_difference` and `join` as sets of addresses.
use Prim.Native.Nat.{min, max}
use testos.Base.{
  ℕ, ◌+◌, ◌-◌, ◌≤◌, ◌<◌, ◌≡◌, ◌↔◌, ◌⊎◌, Option, none, some, arith, ltb, if◌then◌else◌, ok,
}
use testos.Extent.{Extent, extent, left_difference, right_difference, join, overlap}
use testos.Extent.Valid.{
  IsExtent, end_of, Covers, CoversAny, end_address-ok, last_address-ok, from_range_inclusive-ok,
}
use testos.Extent.Overlap.{meet, overlap-eq-meet}

-- What of `a` stands before `b`, and what stands after.
abbrev pub before : Extent → Extent → Option Extent
before a b =
    if ltb a.address b.address
    then some (extent a.address (min a.length (b.address - a.address)))
    else none

abbrev pub after : Extent → Extent → Option Extent
after a b =
    if ltb (end_of b) (end_of a)
    then some (extent (max a.address (end_of b)) (end_of a - max a.address (end_of b)))
    else none

pub left_difference-eq-before : (a b : Extent) → left_difference a b ≡ ok (before a b)
unfolding left_difference
left_difference-eq-before a b = ground arith

pub right_difference-eq-after :
    (a b : Extent) → IsExtent a → IsExtent b → right_difference a b ≡ ok (after a b)
unfolding right_difference
right_difference-eq-after a b va vb =
    rw (last_address-ok a va, last_address-ok b vb) (ground (arith, end_address-ok b))

-- The two differences and the overlap cut an extent into parts: each address of `a` is in
-- exactly the one that its place beside `b` names, and no part covers any other address. All three operations
-- return, for extents that are non-empty and have an end address.
pub partition :
    (a b : Extent)
    → IsExtent a
    → IsExtent b
    → (l o r : Option Extent) × (left_difference a b ≡ ok l)
      × (overlap a b ≡ ok o)
      × (right_difference a b ≡ ok r)
      × ((x : ℕ)
          → (CoversAny l x ↔ (Covers a x × (x < b.address)))
            × (CoversAny o x ↔ (Covers a x × Covers b x))
            × (CoversAny r x ↔ (Covers a x × (end_of b ≤ x))))
partition a b va vb = (
  before a b,
  meet a b,
  after a b,
  left_difference-eq-before a b,
  overlap-eq-meet a b va.nonempty vb.nonempty,
  right_difference-eq-after a b va vb,
  λ x. (
    (λ h. ground arith, λ (h, k). ground arith),
    (λ h. ground arith, λ (h, k). ground arith),
    (λ h. ground arith, λ (h, k). ground arith),
  ),
)

-- `join` returns the smallest extent that covers both: every extent that covers every address of
-- both covers every address of the result. Both extents are non-empty and have an end address.
pub join_least :
    (a b : Extent)
    → IsExtent a
    → IsExtent b
    → (j : Extent) × (join a b ≡ ok j)
      × IsExtent j
      × ((x : ℕ) → (Covers a x) ⊎ (Covers b x) → Covers j x)
      × ((e : Extent)
          → ((x : ℕ) → Covers a x → Covers e x)
          → ((x : ℕ) → Covers b x → Covers e x)
          → (x : ℕ) → Covers j x
          → Covers e x)
join_least a b va vb = (
  extent start (last - start + 1),
  unfold join in
      rw (last_address-ok a va, last_address-ok b vb)
        (from_range_inclusive-ok start last (omega arith) (omega arith)),
  omega arith,
  λ x h. omega arith,
  λ e ha hb x h. omega (
    arith,
    ha a.address (omega arith),
    ha (end_of a - 1) (omega arith),
    hb b.address (omega arith),
    hb (end_of b - 1) (omega arith),
  ),
)
  where
    start : ℕ
    start = min a.address b.address

    last : ℕ
    last = max (end_of a - 1) (end_of b - 1)
