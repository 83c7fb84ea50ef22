-- ===== src/Mm/Mapped.antt =====
-- `create_page_table_template` of src/mm.rs puts all of physical memory into the direct mapping.
use testos.Base.{◌*◌, ◌+◌, ◌/◌, ◌≡◌, ◌≢◌, none, some, List, Outcome, ok, panic, Any}
use testos.Addr.{Address}
use testos.Extent.Valid.{IsExtent, Covers}
use testos.Frame.{frame}
use testos.Page.{Page, page, l4_index}
use testos.MemoryMap.{MapEntry}
use testos.Paging.{PageTableEntry, get_addr, get_flags}
use testos.Paging.Action.{MapError, failed, Mapper, State}
use testos.Paging.Supply.{Refuses, mapped}
use testos.Paging.Map.{leaf}
use testos.Mm.Plan.{Group, data_page_flags, map_groups}

-- One of the entries of the memory map covers the address.
abbrev pub InMemory : List MapEntry → Address → Type 0
InMemory memory_map x = Any (λ e. IsExtent e.extent × Covers e.extent x) memory_map

-- The entry for a frame of memory in the direct mapping.
abbrev pub direct_entry : Address → PageTableEntry
direct_entry a = leaf (frame a) data_page_flags

-- The parts of the address space that the code maps pages in, by the entry of the top table: the first
-- MiB, the direct mapping and the kernel image.
abbrev pub IsUnused : Page → Type 0
IsUnused q = (l4_index q ≢ 0) × (l4_index q ≢ 256) × (l4_index q ≢ 511)

-- The page of the direct mapping for the frame at `a` is mapped to it: the entry has its address, and the
-- flags present, writable and not executable.
abbrev pub IsMapped {ℓ} : {S : Type ℓ} → Mapper S → State S → Address → Type 0
IsMapped mapper s a =
    (e : PageTableEntry) × (mapped mapper s (page (0xffff800000000000 + a)) ≡ some e)
    × (get_addr e ≡ a)
    × (get_flags e ≡ ok 0x8000000000000003)

-- The code returns, memory is in the direct mapping and nothing is where nothing belongs, or it panics
-- for one of the reasons there are.
pub data MapsMemory {ℓ} {S : Type ℓ} (mapper : Mapper S) (s : State S) (plan : Outcome (List Group))
    (memory_map : List MapEntry) (r : Outcome (State S)) : Type ℓ where
  maps_memory :
      (s' : State S)
      → r ≡ ok s'
      → ((x : Address) → InMemory memory_map x → IsMapped mapper s' (x / 4096 * 4096))
      → ((q : Page) → IsUnused q → mapped mapper s' q ≡ none)
      → MapsMemory mapper s plan memory_map r
  has_no_plan : r ≡ panic → plan ≡ panic → MapsMemory mapper s plan memory_map r
  is_refused :
      (gs : List Group) (e : MapError) (s' : State S)
      → r ≡ panic
      → plan ≡ ok gs
      → map_groups mapper gs s ≡ ok (failed e, s')
      → Refuses mapper e s'.allocator
      → MapsMemory mapper s plan memory_map r
