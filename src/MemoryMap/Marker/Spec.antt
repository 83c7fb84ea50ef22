-- ===== src/MemoryMap/Marker/Spec.antt =====
-- Memory maps and kernel areas as functions of the address, and the order that the source asks
-- of both sequences.
use testos.Base.{
  ℕ, ◌≤◌, ◌<◌, ◌≡◌, refl, Bool, false, ◌&&◌, ◌||◌, Option, none, some, List, [], ◌∷◌, arith, ltb,
  leb, if◌then◌else◌, Outcome, ok,
}
use testos.Extent.{Extent}
use testos.Extent.Valid.{IsExtent, end_of}
use testos.MemoryMap.{MapEntry, MemoryType, kernel_load}
use testos.MemoryMap.Marker.{is_split}

-- Valid extents in order of address, without overlap, from `lo` on.
abbrev pub SortedAreas : ℕ → List Extent → Type 0
SortedAreas lo [] = Unit {0}
SortedAreas lo (k ∷ ks) = (lo ≤ k.address) × IsExtent k × SortedAreas (end_of k) ks

abbrev pub SortedEntries : ℕ → List MapEntry → Type 0
SortedEntries lo [] = Unit {0}
SortedEntries lo (e ∷ es) =
    (lo ≤ e.extent.address) × IsExtent e.extent × SortedEntries (end_of e.extent) es

abbrev pub covers : Extent → ℕ → Bool
covers e x = leb e.address x && ltb x (end_of e)

-- Whether some area covers an address.
unfoldable pub in_areas : List Extent → ℕ → Bool
in_areas [] x = false
in_areas (k ∷ ks) x = covers k x || in_areas ks x

-- The type that a map gives to an address.
unfoldable pub type_at : List MapEntry → ℕ → Option MemoryType
type_at [] x = none
type_at (e ∷ es) x = if covers e.extent x then some e.mem_type else type_at es x

-- The type that an address should have after the marking.
abbrev pub mark : Bool → MemoryType → MemoryType
mark area t = if area && is_split t then kernel_load else t

unfoldable pub mark_type : Bool → Option MemoryType → Option MemoryType
mark_type area none = none
mark_type area (some t) = some (mark area t)

-- A marking of the regions `rs` by the areas `ks` returns a sorted map with the right type at
-- each address.
pub record IsMarked (lo : ℕ) (rs : List MapEntry) (ks : List Extent) (r : Outcome (List MapEntry))
    : Type 0 where
  pub out : List MapEntry
  pub returns : r ≡ ok out
  pub sorted : SortedEntries lo out
  pub types : (x : ℕ) → type_at out x ≡ mark_type (in_areas ks x) (type_at rs x)

pub in_areas_below :
    (lo : ℕ) (ks : List Extent) (x : ℕ) → SortedAreas lo ks → x < lo → in_areas ks x ≡ false
unfolding in_areas
in_areas_below lo [] x s h = refl
in_areas_below lo (k ∷ ks) x s h = ground (arith, in_areas_below (end_of k) ks x)

pub type_at_below :
    (lo : ℕ) (es : List MapEntry) (x : ℕ) → SortedEntries lo es → x < lo → type_at es x ≡ none
unfolding type_at
type_at_below lo [] x s h = refl
type_at_below lo (e ∷ es) x s h = ground (arith, type_at_below (end_of e.extent) es x)

pub SortedEntries-mono :
    (lo lo' : ℕ) (es : List MapEntry) → lo' ≤ lo → SortedEntries lo es → SortedEntries lo' es
SortedEntries-mono lo lo' [] h s = tt
SortedEntries-mono lo lo' (e ∷ es) h s = (omega arith, s.1, s.2)
