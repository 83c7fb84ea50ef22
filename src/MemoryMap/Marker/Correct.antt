-- ===== src/MemoryMap/Marker/Correct.antt =====
-- `mark_kernel_areas` ends, does not panic, and marks exactly the kernel areas.
use Prim.Native.Nat.{min}
use testos.Base.{
  sym, ◌∙◌, ℕ, zero, suc, ◌+◌, ◌≤◌, ◌<◌, ◌≡◌, refl, Bool, true, false, ◌&&◌, List, [], ◌∷◌, arith,
  length, le_or_lt, inl, inr, Bool-cases,
}
use testos.Extent.{Extent}
use testos.Extent.Valid.{end_of}
use testos.Extent.Difference.{after}
use testos.MemoryMap.{MapEntry}
use testos.MemoryMap.Marker.{
  is_split, marker, next_region, next, run, split, put_back_right, mark_kernel_areas,
}
use testos.MemoryMap.Marker.Spec.{
  SortedAreas, SortedEntries, in_areas, type_at, mark_type, IsMarked, in_areas_below,
}
use testos.MemoryMap.Marker.Steps.{
  skipped, IsAhead, skipped-IsAhead, length-skipped_mono, in_areas-skipped, next_region-other,
  next_region-split, split-before,
}
use testos.MemoryMap.Marker.Cut.{
  measure, measure-le, IsMarked-whole, IsMarked-cut, put_back_right-SortedEntries,
  measure-put_back_right,
}

-- The claim of the induction, for runs of less fuel.
abbrev Marks : ℕ → Type 0
Marks n =
    (lo a : ℕ) (rs : List MapEntry) (ks : List Extent)
    → measure rs ks < n
    → SortedEntries lo rs
    → SortedAreas a ks
    → IsMarked lo rs ks (run n (marker rs ks))

measure_tail :
    (cur : MapEntry) (rs : List MapEntry) (ks : List Extent)
    → SortedEntries (end_of cur.extent) rs
    → measure rs ks ≤ length rs + length (skipped cur.extent.address ks)
unfolding measure
measure_tail cur [] ks s = omega arith
measure_tail cur (r ∷ rs) ks s =
    omega (arith, length-skipped_mono cur.extent.address r.extent.address ks (omega arith))

not_in_area : (area sp : Bool) → area ≡ false → area && sp ≡ false
not_in_area area sp h = ground arith

not_split : (area sp : Bool) → sp ≡ false → area && sp ≡ false
not_split area sp h = ground arith

-- A region whose type is split, by the areas that are left ahead of it.
split-IsMarked :
    (n lo a : ℕ) (cur : MapEntry) (rs : List MapEntry) (ks ahead : List Extent)
    → Marks n
    → is_split cur.mem_type ≡ true
    → SortedEntries lo (cur ∷ rs)
    → next_region (cur ∷ rs) ks ≡ split cur rs ahead
    → ((x : ℕ) → cur.extent.address ≤ x → in_areas ahead x ≡ in_areas ks x)
    → IsAhead cur.extent.address ahead
    → length rs + length ahead < n
    → IsMarked lo (cur ∷ rs) ks (run (suc n) (marker (cur ∷ rs) ks))
split-IsMarked n lo a cur rs ks [] ih sp s step same ahead m =
    IsMarked-whole n lo cur rs ks [] s.0 s.1 (step ∙ (unfold split in refl)) same
      (λ x h g. not_in_area _ _ (sym (same x h) ∙ (unfold in_areas in refl))) s.2
      (ih (end_of cur.extent) 0 rs [] (omega (arith, measure-le rs [])) s.2 tt)
split-IsMarked n lo a cur rs ks (k ∷ later) ih sp s step same ahead m =
    elim (le_or_lt (end_of cur.extent) k.address) [
      | inl apart ↦
          IsMarked-whole n lo cur rs ks (k ∷ later) s.0 s.1
            (step ∙ split-before cur rs k later s.1 ahead.1 apart) same
            (λ x h g. not_in_area _ _ (
              sym (same x h)
              ∙ in_areas_below k.address (k ∷ later) x (omega arith, ahead.1, ahead.2)
                  (omega arith)))
            s.2
            (ih (end_of cur.extent) k.address rs (k ∷ later)
              (omega (arith, measure-le rs (k ∷ later))) s.2 (omega arith, ahead.1, ahead.2))
      | inr cut ↦
          IsMarked-cut n lo cur rs ks k later s.0 s.1 ahead.1 sp cut ahead.0 step same ahead.2 s.2 (
            ih (min (end_of cur.extent) (end_of k)) k.address
              (put_back_right (after cur.extent k) cur.mem_type rs) (k ∷ later)
              (omega (arith, measure-put_back_right cur rs k later ahead.0))
              (put_back_right-SortedEntries cur rs k s.1 cut ahead.0 s.2)
              (omega arith, ahead.1, ahead.2))
    ]

run-IsMarked : (n : ℕ) → Marks n
unfolding measure
run-IsMarked zero lo a rs ks m s t = absurd (omega arith)
run-IsMarked (suc n) lo a [] ks m s t = record {
  out = [];
  returns = unfold run next next_region in refl;
  sorted = tt;
  types = λ x. unfold type_at mark_type in refl;
}
run-IsMarked (suc n) lo a (cur ∷ rs) ks m s t = elim (Bool-cases (is_split cur.mem_type)) [
  | inl sp ↦
      split-IsMarked n lo a cur rs ks (skipped cur.extent.address ks) (run-IsMarked n) sp s
        (next_region-split a cur rs ks sp s.1 t) (in_areas-skipped cur.extent.address ks)
        (skipped-IsAhead a cur.extent.address ks t) (omega arith)
  | inr other ↦
      IsMarked-whole n lo cur rs ks ks s.0 s.1 (next_region-other cur rs ks other) (λ x h. refl)
        (λ x h g. not_split _ _ other) s.2
        (run-IsMarked n (end_of cur.extent) a rs ks (omega (arith, measure_tail cur rs ks s.2)) s.2
          t)
]

-- For regions and kernel areas that are valid extents in order without overlap,
-- `mark_kernel_areas` ends within its fuel and does not panic. Its result is again in order
-- without overlap, and gives to each address the type that the regions give it, except that the
-- available and ACPI memory that a kernel area covers has become kernel memory.
pub mark_kernel_areas-IsMarked :
    (rs : List MapEntry) (ks : List Extent)
    → SortedEntries 0 rs
    → SortedAreas 0 ks
    → IsMarked 0 rs ks (mark_kernel_areas rs ks)
unfolding mark_kernel_areas
mark_kernel_areas-IsMarked rs ks s t =
    run-IsMarked (length rs + length ks + 1) 0 0 rs ks (omega (arith, measure-le rs ks)) s t
