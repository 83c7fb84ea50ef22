-- ===== src/MemoryMap/Marker/Steps.antt =====
-- What one call of `next` does, case by case.
use Prim.Native.Nat.{min, max}
use testos.Base.{
  ℕ, ◌-◌, ◌≤◌, ◌<◌, ◌≡◌, refl, true, false, some, List, [], ◌∷◌, arith, leb, if◌then◌else◌, ok,
  length, le_or_lt, inl, inr, le→leb, lt→not-leb,
}
use testos.Extent.{Extent, extent}
use testos.Extent.Valid.{IsExtent, end_of}
use testos.Extent.Overlap.{overlap-eq-meet}
use testos.Extent.Difference.{before, after, left_difference-eq-before, right_difference-eq-after}
use testos.MemoryMap.{MapEntry, entry, kernel_load}
use testos.MemoryMap.Marker.{
  is_split, marker, next_region, split, skip_areas, push_left, put_back_right,
}
use testos.MemoryMap.Marker.Spec.{SortedAreas, in_areas}

-- The areas from the first that ends after `lo`.
unfoldable pub skipped : ℕ → List Extent → List Extent
skipped lo [] = []
skipped lo (k ∷ ks) = let later = skipped lo ks in if leb (end_of k) lo then later else k ∷ ks

skip_areas-eq-skipped :
    (lo : ℕ) (cur : Extent) (ks : List Extent)
    → IsExtent cur
    → SortedAreas lo ks
    → skip_areas cur ks ≡ ok (skipped cur.address ks)
unfolding skip_areas skipped
skip_areas-eq-skipped lo cur [] v s = refl
skip_areas-eq-skipped lo cur (k ∷ ks) v s =
    ground (arith, overlap-eq-meet k cur, skip_areas-eq-skipped (end_of k) cur ks v s.2)

pub length-skipped : (lo : ℕ) (ks : List Extent) → length (skipped lo ks) ≤ length ks
unfolding skipped
length-skipped lo [] = omega arith
length-skipped lo (k ∷ ks) = ground (arith, length-skipped lo ks)

pub length-skipped_mono :
    (lo lo' : ℕ) (ks : List Extent) → lo ≤ lo' → length (skipped lo' ks) ≤ length (skipped lo ks)
unfolding skipped
length-skipped_mono lo lo' [] h = omega arith
length-skipped_mono lo lo' (k ∷ ks) h =
    ground (arith, length-skipped_mono lo lo' ks h, length-skipped lo' ks)

-- What is left of the areas after `lo`: sorted areas, the first of which ends after `lo`.
abbrev pub IsAhead : ℕ → List Extent → Type 0
IsAhead lo [] = Unit {0}
IsAhead lo (k ∷ ks) = (lo < end_of k) × IsExtent k × SortedAreas (end_of k) ks

pub skipped-IsAhead : (a lo : ℕ) (ks : List Extent) → SortedAreas a ks → IsAhead lo (skipped lo ks)
unfolding skipped
skipped-IsAhead a lo [] s = tt
skipped-IsAhead a lo (k ∷ ks) s = elim (le_or_lt (end_of k) lo) [
  | inl behind ↦ rw (le→leb (end_of k) lo behind) (skipped-IsAhead (end_of k) lo ks s.2)
  | inr ahead ↦ rw (lt→not-leb (end_of k) lo ahead) (ahead, s.1, s.2)
]

-- The areas that are skipped cover no address from `lo` on.
pub in_areas-skipped :
    (lo : ℕ) (ks : List Extent) (x : ℕ) → lo ≤ x → in_areas (skipped lo ks) x ≡ in_areas ks x
unfolding skipped in_areas
in_areas-skipped lo [] x h = refl
in_areas-skipped lo (k ∷ ks) x h = ground (arith, in_areas-skipped lo ks x)

-- A region of a type that is not split is passed on.
pub next_region-other :
    (cur : MapEntry) (rs : List MapEntry) (ks : List Extent)
    → is_split cur.mem_type ≡ false
    → next_region (cur ∷ rs) ks ≡ ok (some (cur ∷ [], marker rs ks))
unfolding next_region
next_region-other cur rs ks h = rw h

pub next_region-split :
    (lo : ℕ) (cur : MapEntry) (rs : List MapEntry) (ks : List Extent)
    → is_split cur.mem_type ≡ true
    → IsExtent cur.extent
    → SortedAreas lo ks
    → next_region (cur ∷ rs) ks ≡ split cur rs (skipped cur.extent.address ks)
unfolding next_region
next_region-split lo cur rs ks h v s = rw (h, skip_areas-eq-skipped lo cur.extent ks v s)

-- A region before the next area is passed on.
pub split-before :
    (cur : MapEntry) (rs : List MapEntry) (k : Extent) (ks : List Extent)
    → IsExtent cur.extent
    → IsExtent k
    → end_of cur.extent ≤ k.address
    → split cur rs (k ∷ ks) ≡ ok (some (cur ∷ [], marker rs (k ∷ ks)))
unfolding split
split-before cur rs k ks v w h = ground (arith, overlap-eq-meet k cur.extent)

abbrev pub common : Extent → Extent → Extent
common a b = extent (max a.address b.address) (min (end_of a) (end_of b) - max a.address b.address)

-- A region that overlaps the next area is cut at it.
pub split-overlap :
    (cur : MapEntry) (rs : List MapEntry) (k : Extent) (ks : List Extent)
    → IsExtent cur.extent
    → IsExtent k
    → k.address < end_of cur.extent
    → cur.extent.address < end_of k
    → split cur rs (k ∷ ks)
      ≡ ok (
          some (
            push_left
                (before cur.extent k)
                cur.mem_type
                (entry (common cur.extent k) kernel_load ∷ []),
            marker (put_back_right (after cur.extent k) cur.mem_type rs) (k ∷ ks),
          ))
unfolding split
split-overlap cur rs k ks v w h g = ground (
  arith,
  overlap-eq-meet k cur.extent,
  overlap-eq-meet cur.extent k,
  right_difference-eq-after cur.extent k v w,
  left_difference-eq-before cur.extent k,
)
