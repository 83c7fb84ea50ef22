-- ===== src/Extent.antt =====
-- `Extent` of shared/src/memory/addr.rs: a range of addresses, by its first address and its
-- length. Lengths and addresses are subtracted with the source's checks.

pub mod Valid
pub mod Overlap
pub mod Difference
pub mod Aligned
use Prim.Native.Nat.{min, max}
use testos.Base.{
  ℕ, ◌+◌, ◌-◌, ◌≡◌, Bool, true, false, ◌||◌, ◌&&◌, Option, none, some, ltb, leb, ◌==◌,
  if◌then◌else◌, Outcome, ok, ◌>>=◌, unwrap, is_some, or_return, u64_max, add, sub,
}
use testos.Addr.{Address, Length, add_length, sub_length, distance, align_down, align_up}
use testos.Addr

pub record Extent : Type 0 where
  pub address : Address
  pub length : Length

-- `Extent { address, length }`.
abbrev pub extent : Address → Length → Extent
extent a l = record { address = a; length = l }

unfoldable pub new_checked : Address → Length → Option Extent
new_checked a l = if l == 0 || ltb (u64_max - a) l then none else some (extent a l)

unfoldable pub new : Address → Length → Outcome Extent
new a l = unwrap (new_checked a l)

abbrev pub from_raw : ℕ → ℕ → Outcome Extent
from_raw a l = new a l

unfoldable pub from_range_exclusive : Address → Address → Outcome Extent
from_range_exclusive begin end = do l ← sub end begin; ok (extent begin l)

unfoldable pub from_range_inclusive : Address → Address → Outcome Extent
from_range_inclusive start last = do d ← distance last start; l ← add d 1; ok (extent start l)

unfoldable pub end_address : Extent → Outcome Address
end_address e = add_length e.address e.length

unfoldable pub last_address : Extent → Outcome Address
last_address e = do end ← add_length e.address e.length; sub_length end 1

-- `overlap` below its first guard, where `a` does not start after `b`.
unfoldable pub overlap_ordered : Extent → Extent → Outcome (Option Extent)
overlap_ordered a b = do
  d ← distance b.address a.address
  if leb a.length d then ok none else do
    d' ← distance b.address a.address
    rest ← sub a.length d'
    ok (some (extent b.address (min rest b.length)))

-- The guard recurs once with the arguments swapped, and then does not hold.
unfoldable pub overlap : Extent → Extent → Outcome (Option Extent)
overlap a b = if ltb b.address a.address then overlap_ordered b a else overlap_ordered a b

unfoldable pub join : Extent → Extent → Outcome Extent
join a b = do
  a_last ← last_address a
  b_last ← last_address b
  from_range_inclusive (min a.address b.address) (max a_last b_last)

unfoldable pub has_overlap : Extent → Extent → Outcome Bool
has_overlap a b = do o ← overlap a b; ok (is_some o)

-- The derived equality of two extents.
abbrev pub same_extent : Extent → Extent → Bool
same_extent a b = a.address == b.address && a.length == b.length

unfoldable pub contains_overlap : Option Extent → Extent → Bool
contains_overlap none b = false
contains_overlap (some o) b = same_extent o b

unfoldable pub contains : Extent → Extent → Outcome Bool
contains a b = do o ← overlap a b; ok (contains_overlap o b)

unfoldable pub left_difference : Extent → Extent → Outcome (Option Extent)
left_difference a b =
    if leb b.address a.address
    then ok none
    else do d ← distance b.address a.address; ok (some (extent a.address (min a.length d)))

unfoldable pub right_difference : Extent → Extent → Outcome (Option Extent)
right_difference a b = do
  a_last ← last_address a
  b_last ← last_address b
  if leb a_last b_last then ok none else do
    b_end ← end_address b
    let start = max a.address b_end
    skipped ← distance start a.address
    l ← sub a.length skipped
    ok (some (extent start l))

unfoldable pub is_aligned_to : Extent → ℕ → Outcome Bool
is_aligned_to e alignment = do
  aligned ← Addr.is_aligned_to e.address alignment
  if aligned then Addr.is_aligned_to e.length alignment else ok false

unfoldable pub shrink_to_alignment : Extent → ℕ → Outcome (Option Extent)
shrink_to_alignment e alignment = do
  start ← align_up e.address alignment
  end ← end_address e
  stop ← align_down end alignment
  if leb stop start then ok none else do l ← distance stop start; ok (some (extent start l))

unfoldable pub expand_to_alignment : Extent → ℕ → Outcome Extent
expand_to_alignment e alignment = do
  start ← align_down e.address alignment
  end ← end_address e
  stop ← align_up end alignment
  l ← distance stop start
  ok (extent start l)
