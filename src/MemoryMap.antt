-- ===== src/MemoryMap.antt =====
-- `Map`, `MapEntry` and `MemoryType` of shared/src/memory.rs.
pub mod Marker
pub mod Entries
use testos.Base.{
  ℕ, zero, suc, ◌+◌, ◌≡◌, Bool, true, false, List, [], ◌∷◌, ltb, ◌==◌, if◌then◌else◌, Outcome, ok,
  ◌>>=◌, ◌>>◌, assert, add, length, set, replicate, Option, none, some, or_return,
}
use testos.Extent
use testos.Extent.{Extent, extent}
use testos.FrameRange
use testos.FrameRange.{FrameRange}
use testos.Frame.{page_size}

pub data MemoryType : Type 0 where
  available acpi reserved_preserve_on_hibernation defective reserved kernel_load : MemoryType

-- The discriminants, by which the derived equality compares.
abbrev pub discriminant : MemoryType → ℕ
discriminant available = 0
discriminant acpi = 1
discriminant reserved_preserve_on_hibernation = 2
discriminant defective = 3
discriminant reserved = 4
discriminant kernel_load = 5

abbrev pub same_type : MemoryType → MemoryType → Bool
same_type s t = discriminant s == discriminant t

pub record MapEntry : Type 0 where
  pub extent : Extent
  pub mem_type : MemoryType

abbrev pub entry : Extent → MemoryType → MapEntry
entry e t = record { extent = e; mem_type = t }

pub record Map : Type 0 where
  pub entries : List MapEntry
  pub num_entries : ℕ

abbrev pub max_entries : ℕ
max_entries = 128

-- The loop of `from_entries`: each entry goes to the next free place.
unfoldable pub store_entries : List MapEntry → Map → Outcome Map
store_entries [] m = ok m
store_entries (e ∷ src) m = do
  assert (ltb m.num_entries (length m.entries))
  n ← add m.num_entries 1
  store_entries src (record { entries = set m.entries m.num_entries e; num_entries = n })

unfoldable pub from_entries : List MapEntry → Outcome Map
from_entries src =
    store_entries src
      (record { entries = replicate max_entries (entry (extent 0 1) reserved); num_entries = 0 })

abbrev pub take {ℓ} : {A : Type ℓ} → ℕ → List A → List A
take zero xs = []
take (suc n) [] = []
take (suc n) (x ∷ xs) = x ∷ take n xs

-- `entries`, the slice of the stored entries.
unfoldable pub entries : Map → List MapEntry
entries m = take m.num_entries m.entries

unfoldable pub of_type : MemoryType → List MapEntry → List MapEntry
of_type t [] = []
of_type t (e ∷ es) = if same_type e.mem_type t then e ∷ of_type t es else of_type t es

-- Unlike `entries`, this goes through the whole array, unused entries included.
unfoldable pub iter_type : Map → MemoryType → List MapEntry
iter_type m t = of_type t m.entries

-- One step of the `flat_map`: the frames of an entry, if it holds an aligned page.
unfoldable pub entry_frames : MapEntry → Outcome (Option FrameRange)
entry_frames e = do
  s ← Extent.shrink_to_alignment e.extent page_size
  or_return s (λ a. do r ← FrameRange.containing_extent a; ok (some r))

abbrev pub cons_some {ℓ} : {A : Type ℓ} → Option A → List A → List A
cons_some none xs = xs
cons_some (some x) xs = x ∷ xs

unfoldable pub iter_map_frames : List MapEntry → Outcome (List FrameRange)
iter_map_frames [] = ok []
iter_map_frames (e ∷ es) = do r ← entry_frames e; rest ← iter_map_frames es; ok (cons_some r rest)
