-- ===== src/FrameRange/Covering.antt =====
-- `containing_extent` and `contained_by_extent`: the ranges of frames around and inside an extent.
use testos.Base.{
  ℕ, ◌+◌, ◌-◌, ◌*◌, ◌/◌, ◌≤◌, ◌<◌, ◌≡◌, arith, Option, none, some, ok, panic, ◌>>=◌, u64_end, ltb,
  leb, if◌then◌else◌, sub-ok, add-ok, ◌⊎◌, inl, inr, le_or_lt, ◌>>◌, assert, ==_iff, le→leb,
  le→not-ltb, lt→ltb, lt→not-leb,
}
use testos.Addr.{distance, is_aligned_to}
use testos.Addr.Align.{floor_to, ceil_to, align_up-ok, align_down-ok, is_aligned_to-ok}
use testos.Extent.{Extent}
use testos.Extent.Valid as Extent
use testos.Extent.Valid.{last_address-ok}
use testos.Frame.{Frame, frame}
use testos.Frame
use testos.Frame.Valid.{containing-ok, new-ok}
use testos.FrameRange
use testos.FrameRange.{FrameRange, range, between_inclusive, containing_extent, contained_by_extent}
use testos.FrameRange.Valid.{IsRange, end_of, new_unwrap-ok, new-eq-made}

pages : (p q : ℕ) → p ≤ q → (q * 4096 - p * 4096) / 4096 ≡ q - p
pages p q h = omega arith

between_inclusive-ok :
    (p q : ℕ)
    → p ≤ q
    → q * 4096 < u64_end
    → between_inclusive (frame (p * 4096)) (frame (q * 4096))
      ≡ ok (range (frame (p * 4096)) (q - p + 1))
unfolding between_inclusive
between_inclusive-ok p q h b = rw (
  sub-ok (q * 4096) (p * 4096) (omega arith),
  pages p q h,
  add-ok (q - p) 1 (omega arith),
  new_unwrap-ok (frame (p * 4096)) (q - p + 1) (omega arith),
)

-- The numbers of the frames with the first and the last address of an extent.
abbrev pub first_frame : Extent → ℕ
first_frame e = e.address / 4096

abbrev pub last_frame : Extent → ℕ
last_frame e = (Extent.end_of e - 1) / 4096

pub containing_extent-ok :
    (e : Extent)
    → Extent.IsExtent e
    → containing_extent e
      ≡ ok (range (frame (first_frame e * 4096)) (last_frame e - first_frame e + 1))
unfolding containing_extent
containing_extent-ok e v =
    rw
      (
        containing-ok e.address (omega arith),
        last_address-ok e v,
        containing-ok (Extent.end_of e - 1) (omega arith),
      )
      (between_inclusive-ok (first_frame e) (last_frame e) (omega arith) (omega arith))

-- `containing_extent` of a valid extent returns the smallest range of frames around it: the range
-- is valid, covers the extent, starts in the frame of its first address and ends with the frame
-- of its last, so that it lies in every other range of frames around the extent.
pub containing_extent_least :
    (e : Extent)
    → Extent.IsExtent e
    → (r : FrameRange) × (containing_extent e ≡ ok r)
      × IsRange r
      × (r.first.start ≤ e.address)
      × (Extent.end_of e ≤ end_of r)
      × ((p q : ℕ)
          → p * 4096 ≤ e.address
          → Extent.end_of e ≤ q * 4096
          → (p * 4096 ≤ r.first.start) × (end_of r ≤ q * 4096))
containing_extent_least e v = (
  range (frame (first_frame e * 4096)) (last_frame e - first_frame e + 1),
  containing_extent-ok e v,
  omega arith,
  omega arith,
  omega arith,
  λ a b lo hi. omega arith,
)

-- The frames that lie whole inside an extent, but for the last of them.
abbrev pub all_but_last : Extent → Option FrameRange
all_but_last e =
    let p = (e.address + 4095) / 4096 in
    let q = Extent.end_of e / 4096 in
    if ltb p (q - 1) then some (range (frame (p * 4096)) (q - 1 - p)) else none

-- The tail of `contained_by_extent`, from the test on.
contained_tail :
    (p last : ℕ)
    → last < u64_end / 4096
    → p < last
    → (do
      len ← distance (last * 4096) (p * 4096)
      aligned ← is_aligned_to len 4096
      assert aligned
      f ← Frame.new (p * 4096)
      FrameRange.new f (len / 4096))
      ≡ ok (some (range (frame (p * 4096)) (last - p)))
contained_tail p last b h =
    rw
      (
        sub-ok (last * 4096) (p * 4096) (omega arith),
        is_aligned_to-ok 12 (last * 4096 - p * 4096) (omega arith) (omega arith),
        new-ok (p * 4096) (omega arith) (omega arith),
        (==_iff (last * 4096 - p * 4096) (floor_to 12 (last * 4096 - p * 4096))).1 (omega arith),
        pages p last (omega arith),
        new-eq-made (frame (p * 4096)) (last - p) (omega arith),
      )
      (ground arith)

last_start :
    (e : Extent)
    → 4096 < Extent.end_of e
    → floor_to 12 (Extent.end_of e - 1 - 4096 + 1) ≡ (Extent.end_of e / 4096 - 1) * 4096
last_start e big = omega arith

kept :
    (e : Extent)
    → Extent.end_of e < u64_end
    → 4096 < Extent.end_of e
    → (if leb ((Extent.end_of e / 4096 - 1) * 4096) (ceil_to 12 e.address) then ok none else do
      len ← distance ((Extent.end_of e / 4096 - 1) * 4096) (ceil_to 12 e.address)
      aligned ← is_aligned_to len 4096
      assert aligned
      f ← Frame.new (ceil_to 12 e.address)
      FrameRange.new f (len / 4096))
      ≡ ok (all_but_last e)
kept e fits big = elim (le_or_lt (Extent.end_of e / 4096 - 1) ((e.address + 4095) / 4096)) [
  | inl empty ↦ rw (
    le→leb ((Extent.end_of e / 4096 - 1) * 4096) (ceil_to 12 e.address) (omega arith),
    le→not-ltb ((e.address + 4095) / 4096) (Extent.end_of e / 4096 - 1) empty,
  )
  | inr more ↦
      rw
        (
          lt→not-leb ((Extent.end_of e / 4096 - 1) * 4096) (ceil_to 12 e.address) (omega arith),
          lt→ltb ((e.address + 4095) / 4096) (Extent.end_of e / 4096 - 1) more,
        )
        (contained_tail ((e.address + 4095) / 4096) (Extent.end_of e / 4096 - 1) (omega arith) more)
]

-- `contained_by_extent` panics on an extent that ends within the first page. On any other, whose
-- first address rounds up to an address, it returns the frames that lie whole inside the extent
-- but for the last of them, and `none` where the extent holds one whole frame or none.
pub contained_by_extent_lem :
    (e : Extent)
    → Extent.IsExtent e
    → e.address + 4095 < u64_end
    → ((Extent.end_of e ≤ 4096) × (contained_by_extent e ≡ panic))
      ⊎ ((4096 < Extent.end_of e) × (contained_by_extent e ≡ ok (all_but_last e)))
contained_by_extent_lem e v h = elim (le_or_lt (Extent.end_of e) 4096) [
  | inl small ↦ inl (
    small,
    unfold contained_by_extent in
        rw (align_up-ok 12 e.address (omega arith) h, last_address-ok e v) (ground arith),
  )
  | inr big ↦ inr (
    big,
    unfold contained_by_extent in
        rw
          (
            align_up-ok 12 e.address (omega arith) h,
            last_address-ok e v,
            sub-ok (Extent.end_of e - 1) 4096 (omega arith),
            add-ok (Extent.end_of e - 1 - 4096) 1 (omega arith),
            align_down-ok 12 (Extent.end_of e - 1 - 4096 + 1) (omega arith) (omega arith),
            last_start e big,
          )
          (kept e (omega arith) big),
  )
]
