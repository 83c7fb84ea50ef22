-- ===== src/Extent/Overlap.antt =====
-- `overlap` against the intersection of two ranges of numbers.
use Prim.Native.Nat.{min, max}
use testos.Base.{
  ℕ, ◌-◌, ◌≤◌, ◌<◌, ◌≡◌, ◌↔◌, Bool, true, Option, none, some, arith, ltb, if◌then◌else◌, ok, sub-ok,
}
use testos.Extent.{Extent, extent, overlap, overlap_ordered, contains, contains_overlap}
use testos.Extent.Valid.{end_of, Covers, CoversAny}

-- The intersection, from the greater of the starts to the lesser of the ends.
abbrev pub meet : Extent → Extent → Option Extent
meet a b =
    if ltb (max a.address b.address) (min (end_of a) (end_of b))
    then some
        (extent (max a.address b.address) (min (end_of a) (end_of b) - max a.address b.address))
    else none

overlap_ordered-eq-meet :
    (a b : Extent) → a.address ≤ b.address → 0 < b.length → overlap_ordered a b ≡ ok (meet a b)
unfolding overlap_ordered
overlap_ordered-eq-meet a b h n = rw (sub-ok b.address a.address h) (ground arith)

meet_comm : (a b : Extent) → meet a b ≡ meet b a
meet_comm a b = ground arith

-- `overlap` of non-empty extents never panics and is their intersection.
pub overlap-eq-meet : (a b : Extent) → 0 < a.length → 0 < b.length → overlap a b ≡ ok (meet a b)
unfolding overlap
overlap-eq-meet a b na nb =
    ground (arith, overlap_ordered-eq-meet a b, overlap_ordered-eq-meet b a, meet_comm a b)

CoversAny-meet : (a b : Extent) (x : ℕ) → CoversAny (meet a b) x ↔ (Covers a x × Covers b x)
CoversAny-meet a b x = (λ h. ground arith, λ (h, k). ground arith)

-- The order of the two extents does not matter: `overlap` takes them in either order, when both
-- are non-empty.
pub overlap_comm : (a b : Extent) → 0 < a.length → 0 < b.length → overlap a b ≡ overlap b a
overlap_comm a b na nb = ground (arith, overlap-eq-meet a b, overlap-eq-meet b a, meet_comm a b)

-- For non-empty extents `overlap` returns, and its result covers exactly the addresses that
-- both extents cover: `none` when there is none.
pub overlap_iff :
    (a b : Extent)
    → 0 < a.length
    → 0 < b.length
    → (o : Option Extent) × (overlap a b ≡ ok o)
      × ((x : ℕ) → CoversAny o x ↔ (Covers a x × Covers b x))
overlap_iff a b na nb = (meet a b, overlap-eq-meet a b na nb, CoversAny-meet a b)

contains_overlap-meet :
    (a b : Extent)
    → 0 < b.length
    → (contains_overlap (meet a b) b ≡ true) ↔ ((a.address ≤ b.address) × (end_of b ≤ end_of a))
unfolding contains_overlap
contains_overlap-meet a b nb = (λ h. ground arith, λ (h, k). ground arith)

within :
    (a b : Extent)
    → 0 < b.length
    → ((x : ℕ) → Covers b x → Covers a x)
    → (a.address ≤ b.address) × (end_of b ≤ end_of a)
within a b nb h =
    let first = h b.address (omega arith) in
    let last = h (end_of b - 1) (omega arith) in omega arith

-- `contains` returns whether every address of the second extent is in the first, for non-empty
-- extents.
pub contains_iff :
    (a b : Extent)
    → 0 < a.length
    → 0 < b.length
    → (r : Bool) × (contains a b ≡ ok r) × ((r ≡ true) ↔ ((x : ℕ) → Covers b x → Covers a x))
contains_iff a b na nb = (
  contains_overlap (meet a b) b,
  unfold contains in rw (overlap-eq-meet a b na nb),
  (
    λ e x h. let k = (contains_overlap-meet a b nb).0 e in omega arith,
    λ h. (contains_overlap-meet a b nb).1 (within a b nb h),
  ),
)
