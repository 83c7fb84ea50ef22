-- ===== src/MemoryMap/Marker.antt =====
-- `mark_kernel_areas` and its iterator `KernelAreaMarker` of shared/src/memory.rs. An iterator
-- is the list of the items still to come, so that putting an item back is `∷`; the source puts
-- back at most one item between two calls of `next`. An `ArrayVec` is the list of its items.
pub mod Spec
mod Steps
mod Cut
pub mod Correct
use testos.Base.{
  ℕ, zero, suc, ◌+◌, Bool, true, false, ◌&&◌, Option, none, some, List, [], ◌∷◌, ◌++◌, ltb,
  if◌then◌else◌, Outcome, ok, panic, ◌>>=◌, unwrap, is_none, length,
}
use testos.Extent.{Extent, overlap, left_difference, right_difference}
use testos.MemoryMap.{
  MapEntry, entry, MemoryType, available, acpi, reserved_preserve_on_hibernation, defective,
  reserved, kernel_load,
}

pub record Marker : Type 0 where
  pub regions : List MapEntry
  pub kernel_areas : List Extent

abbrev pub marker : List MapEntry → List Extent → Marker
marker rs ks = record { regions = rs; kernel_areas = ks }

-- The types that are split around kernel areas.
abbrev pub is_split : MemoryType → Bool
is_split available = true
is_split acpi = true
is_split _ = false

-- The `while let` loop: kernel areas before the current region are dropped.
unfoldable pub skip_areas : Extent → List Extent → Outcome (List Extent)
skip_areas cur [] = ok []
skip_areas cur (kernel ∷ rest) = do
  o ← overlap kernel cur
  let later = skip_areas cur rest
  if is_none o && ltb kernel.address cur.address then later else ok (kernel ∷ rest)

-- `if let Some(right) = .. { put_back }`.
abbrev pub put_back_right : Option Extent → MemoryType → List MapEntry → List MapEntry
put_back_right none t rs = rs
put_back_right (some right) t rs = entry right t ∷ rs

-- `if let Some(left) = .. { parts.push }`.
abbrev pub push_left : Option Extent → MemoryType → List MapEntry → List MapEntry
push_left none t parts = parts
push_left (some left) t parts = entry left t ∷ parts

-- `next` from where the kernel areas have been skipped.
unfoldable pub split :
    MapEntry → List MapEntry → List Extent → Outcome (Option (List MapEntry × Marker))
split cur rs [] = ok (some (cur ∷ [], marker rs []))
split cur rs (kernel ∷ rest) = do
  o ← overlap kernel cur.extent
  let whole = ok (some (cur ∷ [], marker rs (kernel ∷ rest)))
  if is_none o && ltb cur.extent.address kernel.address then whole else do
    right ← right_difference cur.extent kernel
    left ← left_difference cur.extent kernel
    common ← overlap cur.extent kernel
    area ← unwrap common
    ok (
        some (
          push_left left cur.mem_type (entry area kernel_load ∷ []),
          marker (put_back_right right cur.mem_type rs) (kernel ∷ rest),
        ))

-- `next` by whether a region is left.
unfoldable pub next_region : List MapEntry → List Extent → Outcome (Option (List MapEntry × Marker))
next_region [] areas = ok none
next_region (cur ∷ rs) areas =
    if is_split cur.mem_type
    then (do ks ← skip_areas cur.extent areas; split cur rs ks)
    else ok (some (cur ∷ [], marker rs areas))

unfoldable pub next : Marker → Outcome (Option (List MapEntry × Marker))
next m = next_region m.regions m.kernel_areas

-- The `flatten`ed iterator, run to its end. The fuel is the number of calls of `next`; without
-- fuel the run has not ended (see MemoryMap/Marker/Correct.antt).
unfoldable pub run : ℕ → Marker → Outcome (List MapEntry)
run zero m = panic
run (suc fuel) m = do
  step ← next m
  elim step [ none ↦ ok [] | some (parts, m') ↦ do rest ← run fuel m'; ok (parts ++ rest) ]

unfoldable pub mark_kernel_areas : List MapEntry → List Extent → Outcome (List MapEntry)
mark_kernel_areas regions areas = run (length regions + length areas + 1) (marker regions areas)
