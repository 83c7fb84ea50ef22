-- ===== src/Tests/Extents.antt =====
-- The theorems on addresses and extents at concrete inputs.
use testos.Base.{ℕ, ◌*◌, ◌^◌, ◌≤◌, ◌<◌, ◌≡◌, ◌↔◌, arith, Option, ok}
use testos.Extent.{
  Extent, extent, overlap, left_difference, right_difference, shrink_to_alignment,
  expand_to_alignment,
}
use testos.Extent.Valid.{IsExtent, end_of, Covers, CoversAny}
use testos.Extent.Overlap.{overlap_iff}
use testos.Extent.Difference.{partition}
use testos.Extent.Aligned.{IsAligned, IsShrunk, Within, shrink_largest, expand_smallest}

abbrev low : Extent
low = extent 100 200

abbrev high : Extent
high = extent 250 100

abbrev pages : Extent
pages = extent 5000 20000

low-IsExtent : IsExtent low
low-IsExtent = record { nonempty = omega arith; fits = omega arith }

high-IsExtent : IsExtent high
high-IsExtent = record { nonempty = omega arith; fits = omega arith }

pages-IsExtent : IsExtent pages
pages-IsExtent = record { nonempty = omega arith; fits = omega arith }

overlap_iff_example :
    (o : Option Extent) × (overlap low high ≡ ok o)
    × ((x : ℕ) → CoversAny o x ↔ (Covers low x × Covers high x))
overlap_iff_example = overlap_iff low high (omega arith) (omega arith)

partition_example :
    (l o r : Option Extent) × (left_difference low high ≡ ok l)
    × (overlap low high ≡ ok o)
    × (right_difference low high ≡ ok r)
    × ((x : ℕ)
        → (CoversAny l x ↔ (Covers low x × (x < 250)))
          × (CoversAny o x ↔ (Covers low x × Covers high x))
          × (CoversAny r x ↔ (Covers low x × (end_of high ≤ x))))
partition_example = partition low high low-IsExtent high-IsExtent

shrink_largest_example :
    (o : Option Extent) × (shrink_to_alignment pages (2 ^ 12) ≡ ok o)
    × IsShrunk 12 pages o
    × ((q r : ℕ) → q < r → 5000 ≤ q * 2 ^ 12 → r * 2 ^ 12 ≤ end_of pages → Within 12 q r o)
shrink_largest_example = shrink_largest 12 pages (omega arith) pages-IsExtent (omega arith)

expand_smallest_example :
    (s : Extent) × (expand_to_alignment pages (2 ^ 12) ≡ ok s)
    × IsAligned 12 s
    × (s.address ≤ 5000)
    × (end_of pages ≤ end_of s)
    × ((q r : ℕ)
        → q * 2 ^ 12 ≤ 5000
        → end_of pages ≤ r * 2 ^ 12
        → (q * 2 ^ 12 ≤ s.address) × (end_of s ≤ r * 2 ^ 12))
expand_smallest_example = expand_smallest 12 pages (omega arith) pages-IsExtent (omega arith)
