-- ===== src/MemoryMap/Marker/Cut.antt =====
-- What is left to do after a call of `next`, and a region that a kernel area cuts into parts.
use Prim.Native.Nat.{min, max}
use testos.Base.{
  ◌∙◌, ℕ, suc, ◌+◌, ◌≤◌, ◌<◌, ◌≡◌, Bool, true, false, ◌&&◌, ◌||◌, Option, none, some, List, [], ◌∷◌,
  ◌++◌, arith, ltb, leb, if◌then◌else◌, ok, ◌>>=◌, length, le_or_lt, inl, inr, lt→ltb, le→not-ltb,
}
use testos.Extent.{Extent}
use testos.Extent.Valid.{IsExtent, end_of}
use testos.Extent.Difference.{before, after}
use testos.MemoryMap.{MapEntry, entry, MemoryType, kernel_load}
use testos.MemoryMap.Marker.{
  is_split, marker, next_region, next, run, split, push_left, put_back_right,
}
use testos.MemoryMap.Marker.Spec.{
  SortedAreas, SortedEntries, in_areas, type_at, mark_type, covers, IsMarked, in_areas_below,
  type_at_below, SortedEntries-mono,
}
use testos.MemoryMap.Marker.Steps.{skipped, length-skipped, split-overlap, common}

-- The calls of `next` that are left, at most.
unfoldable pub measure : List MapEntry → List Extent → ℕ
measure [] ks = 0
measure (cur ∷ rs) ks = suc (length rs + length (skipped cur.extent.address ks))

pub measure-le : (rs : List MapEntry) (ks : List Extent) → measure rs ks ≤ length rs + length ks
unfolding measure
measure-le [] ks = omega arith
measure-le (cur ∷ rs) ks = omega (arith, length-skipped cur.extent.address ks)

-- One round of the run.
pub run_step :
    (n : ℕ) (rs rs' : List MapEntry) (ks ks' : List Extent) (parts : List MapEntry)
    → next_region rs ks ≡ ok (some (parts, marker rs' ks'))
    → run (suc n) (marker rs ks) ≡ (do rest ← run n (marker rs' ks'); ok (parts ++ rest))
unfolding run next
run_step n rs rs' ks ks' parts e = rw e

-- A region that is passed on whole.
pub IsMarked-whole :
    (n lo : ℕ) (cur : MapEntry) (rs : List MapEntry) (ks ks' : List Extent)
    → lo ≤ cur.extent.address
    → IsExtent cur.extent
    → next_region (cur ∷ rs) ks ≡ ok (some (cur ∷ [], marker rs ks'))
    → ((x : ℕ) → cur.extent.address ≤ x → in_areas ks' x ≡ in_areas ks x)
    → ((x : ℕ)
        → cur.extent.address ≤ x
        → x < end_of cur.extent
        → in_areas ks x && is_split cur.mem_type ≡ false)
    → SortedEntries (end_of cur.extent) rs
    → IsMarked (end_of cur.extent) rs ks' (run n (marker rs ks'))
    → IsMarked lo (cur ∷ rs) ks (run (suc n) (marker (cur ∷ rs) ks))
unfolding type_at mark_type
IsMarked-whole n lo cur rs ks ks' le v step same free s rest = record {
  out = cur ∷ rest.out;
  returns = rw (run_step n (cur ∷ rs) rs ks ks' (cur ∷ []) step, rest.returns);
  sorted = (le, v, rest.sorted);
  types =
      λ x. ground (arith, rest.types x, same x, free x, type_at_below (end_of cur.extent) rs x s);
}

-- The types that the parts of a cut give to an address.
pub type_at-parts :
    (cur : MapEntry) (k : Extent) (out : List MapEntry) (x : ℕ)
    → k.address < end_of cur.extent
    → cur.extent.address < end_of k
    → type_at
        (push_left (before cur.extent k) cur.mem_type (entry (common cur.extent k) kernel_load ∷ [])
          ++ out)
        x
      ≡ (if leb cur.extent.address x && ltb x (min (end_of cur.extent) (end_of k))
          then some (if ltb x k.address then cur.mem_type else kernel_load)
          else type_at out x)
unfolding type_at
type_at-parts cur k out x h g = ground arith

-- The types of the regions that are left.
pub type_at-put_back_right :
    (cur : MapEntry) (rs : List MapEntry) (k : Extent) (x : ℕ)
    → cur.extent.address < end_of k
    → type_at (put_back_right (after cur.extent k) cur.mem_type rs) x
      ≡ (if leb (end_of k) x && ltb x (end_of cur.extent) then some cur.mem_type else type_at rs x)
unfolding type_at
type_at-put_back_right cur rs k x g = ground arith

pub cut_types :
    (cur : MapEntry) (rs : List MapEntry) (k : Extent) (area later : Bool) (x : ℕ)
    (o r : Option MemoryType)
    → is_split cur.mem_type ≡ true
    → k.address < end_of cur.extent
    → cur.extent.address < end_of k
    → (cur.extent.address ≤ x → (covers k x || later) ≡ area)
    → (x < end_of k → later ≡ false)
    → (x < end_of cur.extent → r ≡ none)
    → o
      ≡ mark_type
          (covers k x || later)
          (if leb (end_of k) x && ltb x (end_of cur.extent) then some cur.mem_type else r)
    → (if leb cur.extent.address x && ltb x (min (end_of cur.extent) (end_of k))
        then some (if ltb x k.address then cur.mem_type else kernel_load)
        else o)
      ≡ mark_type area (if covers cur.extent x then some cur.mem_type else r)
unfolding mark_type
cut_types cur rs k area later x o r sp h g same low none_ e = ground arith

-- A region that the next area cuts: the rest of the run starts where the cut ends.
pub IsMarked-cut :
    (n lo : ℕ) (cur : MapEntry) (rs : List MapEntry) (ks : List Extent) (k : Extent)
    (later : List Extent)
    → lo ≤ cur.extent.address
    → IsExtent cur.extent
    → IsExtent k
    → is_split cur.mem_type ≡ true
    → k.address < end_of cur.extent
    → cur.extent.address < end_of k
    → next_region (cur ∷ rs) ks ≡ split cur rs (k ∷ later)
    → ((x : ℕ) → cur.extent.address ≤ x → in_areas (k ∷ later) x ≡ in_areas ks x)
    → SortedAreas (end_of k) later
    → SortedEntries (end_of cur.extent) rs
    → IsMarked
        (min (end_of cur.extent) (end_of k))
        (put_back_right (after cur.extent k) cur.mem_type rs)
        (k ∷ later)
        (run n (marker (put_back_right (after cur.extent k) cur.mem_type rs) (k ∷ later)))
    → IsMarked lo (cur ∷ rs) ks (run (suc n) (marker (cur ∷ rs) ks))
unfolding type_at mark_type in_areas
IsMarked-cut n lo cur rs ks k later le v w sp h g step same s t rest = record {
  out = parts ++ rest.out;
  returns = rw (
    run_step n (cur ∷ rs) _ ks _ parts (step ∙ split-overlap cur rs k later v w h g),
    rest.returns,
  );
  sorted = cut_sorted;
  types = types_at;
}
  where
    parts : List MapEntry
    parts =
        push_left (before cur.extent k) cur.mem_type (entry (common cur.extent k) kernel_load ∷ [])

    after_common : SortedEntries (end_of (common cur.extent k)) rest.out
    after_common = SortedEntries-mono _ _ rest.out (omega arith) rest.sorted

    cut_sorted : SortedEntries lo (parts ++ rest.out)
    cut_sorted = elim (le_or_lt k.address cur.extent.address) [
      | inl at_start ↦
          rw (le→not-ltb cur.extent.address k.address at_start)
            (omega arith, omega arith, after_common)
      | inr inside ↦
          rw (lt→ltb cur.extent.address k.address inside)
            (omega arith, omega arith, (omega arith, omega arith, after_common))
    ]

    types_at :
        (x : ℕ) → type_at (parts ++ rest.out) x ≡ mark_type (in_areas ks x) (type_at (cur ∷ rs) x)
    types_at x =
        type_at-parts cur k rest.out x h g
        ∙ cut_types cur rs k (in_areas ks x) (in_areas later x) x (type_at rest.out x)
            (type_at rs x) sp h g (same x) (in_areas_below (end_of k) later x s)
            (type_at_below (end_of cur.extent) rs x t)
            (rw (← type_at-put_back_right cur rs k x g) (rest.types x))

-- The regions that are left after a cut are sorted, and need fewer calls.
pub put_back_right-SortedEntries :
    (cur : MapEntry) (rs : List MapEntry) (k : Extent)
    → IsExtent cur.extent
    → k.address < end_of cur.extent
    → cur.extent.address < end_of k
    → SortedEntries (end_of cur.extent) rs
    → SortedEntries
        (min (end_of cur.extent) (end_of k))
        (put_back_right (after cur.extent k) cur.mem_type rs)
put_back_right-SortedEntries cur rs k v h g t = elim (le_or_lt (end_of cur.extent) (end_of k)) [
  | inl whole ↦
      rw (le→not-ltb (end_of k) (end_of cur.extent) whole)
        (SortedEntries-mono _ _ rs (omega arith) t)
  | inr part ↦
      rw (lt→ltb (end_of k) (end_of cur.extent) part)
        (omega arith, omega arith, SortedEntries-mono _ _ rs (omega arith) t)
]

pub measure-put_back_right :
    (cur : MapEntry) (rs : List MapEntry) (k : Extent) (later : List Extent)
    → cur.extent.address < end_of k
    → measure (put_back_right (after cur.extent k) cur.mem_type rs) (k ∷ later)
      ≤ suc (length rs + length later)
unfolding measure skipped
measure-put_back_right cur rs k later g =
    ground
      (arith, measure-le rs (k ∷ later), length-skipped (max cur.extent.address (end_of k)) later)
