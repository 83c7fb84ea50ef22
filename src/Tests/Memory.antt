-- ===== src/Tests/Memory.antt =====
-- The unit test of `mark_kernel_areas` in shared/src/memory.rs.
use testos.Base.{ℕ, ◌+◌, ◌-◌, ◌<◌, ◌≡◌, arith, refl, List, [], ◌∷◌, ok}
use testos.Extent.{
  Extent, extent, overlap, overlap_ordered, left_difference, right_difference, last_address,
  end_address,
}
use testos.MemoryMap.{MapEntry, entry, available, reserved, defective, kernel_load}
use testos.MemoryMap.Marker.{mark_kernel_areas, run, next, next_region, split, skip_areas}
use testos.MemoryMap.Marker.Spec.{SortedEntries, SortedAreas, IsMarked}
use testos.MemoryMap.Marker.Correct.{mark_kernel_areas-IsMarked}
use testos.Extent.Valid.{IsExtent}

abbrev between : ℕ → ℕ → Extent
between a b = extent a (b - a)

abbrev regions : List MapEntry
regions =
    entry (between 0 100) available
    ∷ entry (between 100 200) reserved
    ∷ entry (between 200 300) available
    ∷ entry (between 325 375) defective
    ∷ entry (between 400 600) available
    ∷ entry (between 700 800) available
    ∷ entry (between 800 900) available
    ∷ entry (between 900 1000) available
    ∷ entry (between 1100 1200) available
    ∷ []

abbrev areas : List Extent
areas =
    between 25 75
    ∷ between 200 300
    ∷ between 400 500
    ∷ between 750 775
    ∷ between 790 825
    ∷ between 950 1000
    ∷ []

mark_kernel_areas_test :
    mark_kernel_areas regions areas
    ≡ ok (
        entry (between 0 25) available
        ∷ entry (between 25 75) kernel_load
        ∷ entry (between 75 100) available
        ∷ entry (between 100 200) reserved
        ∷ entry (between 200 300) kernel_load
        ∷ entry (between 325 375) defective
        ∷ entry (between 400 500) kernel_load
        ∷ entry (between 500 600) available
        ∷ entry (between 700 750) available
        ∷ entry (between 750 775) kernel_load
        ∷ entry (between 775 790) available
        ∷ entry (between 790 800) kernel_load
        ∷ entry (between 800 825) kernel_load
        ∷ entry (between 825 900) available
        ∷ entry (between 900 950) available
        ∷ entry (between 950 1000) kernel_load
        ∷ entry (between 1100 1200) available
        ∷ [])
unfolding mark_kernel_areas run next next_region split skip_areas overlap overlap_ordered
    left_difference right_difference last_address end_address
mark_kernel_areas_test = refl

valid : (a n : ℕ) → 0 < n → a + n < 2000 → IsExtent (extent a n)
valid a n pos fits = record { nonempty = pos; fits = omega arith }

abbrev two_regions : List MapEntry
two_regions = entry (between 0 100) available ∷ entry (between 100 200) reserved ∷ []

abbrev one_area : List Extent
one_area = between 25 75 ∷ []

two_regions-Sorted : SortedEntries 0 two_regions
two_regions-Sorted = (
  omega arith,
  valid 0 100 (omega arith) (omega arith),
  (omega arith, valid 100 100 (omega arith) (omega arith), tt),
)

one_area-Sorted : SortedAreas 0 one_area
one_area-Sorted = (omega arith, valid 25 50 (omega arith) (omega arith), tt)

mark_kernel_areas-IsMarked_example :
    IsMarked 0 two_regions one_area (mark_kernel_areas two_regions one_area)
mark_kernel_areas-IsMarked_example =
    mark_kernel_areas-IsMarked two_regions one_area two_regions-Sorted one_area-Sorted
