-- ===== src/Mm/Init.antt =====
-- `init` of src/mm.rs. What the boot information lists is a parameter. The bitmap, the cell of the
-- frame allocator and the root table of the kernel are statics, which are state here.
use testos.Base.{
  ℕ, ◌+◌, ◌*◌, ◌/◌, Bool, true, not, Option, none, some, List, [], ◌∷◌, ◌++◌, ltb, leb,
  if◌then◌else◌, Outcome, ok, panic, ◌>>=◌, ◌>>◌, assert, unwrap, get_elem?, set, add,
}
use testos.Addr.{Address, distance}
use testos.Extent
use testos.Extent.{Extent}
use testos.Frame
use testos.Frame.{Frame}
use testos.FrameRange
use testos.FrameRange.{FrameRange}
use testos.MemoryMap
use testos.MemoryMap.{Map, MapEntry, MemoryType, available, same_type}
use testos.MemoryMap.Marker.{mark_kernel_areas}
use testos.BumpAllocator
use testos.BumpAllocator.{BumpAllocator}
use testos.BitmapAllocator
use testos.BitmapAllocator.{Bitmap}
use testos.FillBitmap.{fill_bitmap_from_map}
use testos.Paging.Action.{Memory, state, write_table}
use testos.Mm.{Symbols, get_kernel_phys_extent, kernel_ptr_to_phys_addr}
use testos.Mm.Bootstrap.{bootstrap_mapper}
use testos.Mm.Template.{Section, create_page_table_template}
use testos.Mm.Frames.{FrameAllocator}

-- `mb2::MemoryAreaType`.
pub data AreaType : Type 0 where
  area_available area_reserved acpi_available reserved_hibernate area_defective area_custom :
      AreaType

pub record Area : Type 0 where
  pub start_address : Address
  pub size : ℕ
  pub typ : AreaType

-- The boot information: `memory_map_tag()`, the sections, and where the structure itself lies.
pub record BootInfo : Type 0 where
  pub memory_areas : Option (List Area)
  pub sections : List Section
  pub start_address : Address
  pub total_size : ℕ

unfoldable pub memory_type : AreaType → Outcome MemoryType
memory_type area_available = ok MemoryType.available
memory_type area_reserved = ok MemoryType.reserved
memory_type acpi_available = ok MemoryType.acpi
memory_type reserved_hibernate = ok MemoryType.reserved_preserve_on_hibernation
memory_type area_defective = ok MemoryType.defective
memory_type area_custom = panic

unfoldable pub area_entry : Area → Outcome MapEntry
area_entry a = do
  extent ← Extent.from_raw a.start_address a.size
  t ← memory_type a.typ
  ok (MemoryMap.entry extent t)

unfoldable pub area_entries : List Area → Outcome (List MapEntry)
area_entries [] = ok []
area_entries (a ∷ rest) = do e ← area_entry a; es ← area_entries rest; ok (e ∷ es)

unfoldable pub translate_memory_map : BootInfo → Outcome Map
translate_memory_map boot_info = do
  areas ← unwrap boot_info.memory_areas
  es ← area_entries areas
  MemoryMap.from_entries es

-- The sum of the numbers of frames of all entries.
unfoldable pub count_frames : List MapEntry → Outcome ℕ
count_frames [] = ok 0
count_frames (e ∷ es) = do
  r ← FrameRange.containing_extent e.extent
  rest ← count_frames es
  add r.count rest

-- `skip_while` on the entries that start below 1 MiB, with the index of the first one that is left.
unfoldable pub skip_low : ℕ → List MapEntry → ℕ × List MapEntry
skip_low i [] = (i, [])
skip_low i (e ∷ es) =
    let rest = skip_low (i + 1) es in
    if ltb e.extent.address (1024 * 1024) then rest else (i, e ∷ es)

-- `find` of an available entry that holds enough frames.
unfoldable pub find_entry : ℕ → ℕ → List MapEntry → Outcome (Option (ℕ × MapEntry))
find_entry frames i [] = ok none
find_entry frames i (e ∷ es) =
    let rest = find_entry frames (i + 1) es in
    if same_type e.mem_type available
    then (do
      o ← FrameRange.contained_by_extent e.extent
      r ← unwrap o
      if leb frames r.count then ok (some (i, e)) else rest)
    else rest

-- `entries_mut()[i].extent = extent`.
unfoldable pub set_extent : ℕ → Extent → Map → Outcome Map
set_extent i extent m = do
  e ← unwrap (get_elem? (MemoryMap.entries m) i)
  ok (record m { entries = set m.entries i (MemoryMap.entry extent e.mem_type) })

-- The frames for the bootstrap, and the map without them.
unfoldable pub take_bootstrap : Map → Outcome (ℕ × FrameRange × Map)
take_bootstrap m = do
  total ← count_frames (MemoryMap.entries m)
  let init_alloc_frames = total / 256
  let (first, late) = skip_low 0 (MemoryMap.entries m)
  found ← find_entry init_alloc_frames first late
  (i, e) ← unwrap found
  o ← FrameRange.contained_by_extent e.extent
  whole ← unwrap o
  frames ← FrameRange.new_unwrap whole.first init_alloc_frames
  following ← FrameRange.end frames
  next ← unwrap following
  end ← Extent.end_address e.extent
  extent ← Extent.from_range_exclusive next.start end
  m' ← set_extent i extent m
  ok (i, frames, m')

-- The frames that the bootstrap has not used go back to the entry.
unfoldable pub give_back : ℕ → Option FrameRange → Map → Outcome Map
give_back i none m = ok m
give_back i (some remain) m = do
  e ← unwrap (get_elem? (MemoryMap.entries m) i)
  end ← Extent.end_address e.extent
  extent ← Extent.from_range_exclusive remain.first.start end
  set_extent i extent m

-- `reserve` of each frame; whether it was available is ignored.
unfoldable pub reserve_frames : List Frame → Bitmap → Outcome Bitmap
reserve_frames [] bitmap = ok bitmap
reserve_frames (f ∷ fs) bitmap = do
  (_, after) ← BitmapAllocator.reserve bitmap f
  reserve_frames fs after

unfoldable pub reserve_extent : Extent → Bitmap → Outcome Bitmap
reserve_extent e bitmap = do
  r ← FrameRange.containing_extent e
  frames ← FrameRange.iter r
  reserve_frames frames bitmap

unfoldable pub reserve_extents : List Extent → Bitmap → Outcome Bitmap
reserve_extents [] bitmap = ok bitmap
reserve_extents (e ∷ es) bitmap = do after ← reserve_extent e bitmap; reserve_extents es after

-- The statics of src/mm.rs, the memory in which page tables stand, and the root table in use.
pub record Statics : Type 0 where
  pub is_initialized : Bool
  pub frame_bitmap : Bitmap
  pub frame_allocator : FrameAllocator
  pub memory : Memory
  pub cr3 : Option Address

-- The addresses of `table` in `create_page_table_template` and of `INIT_PAGE_TABLE`.
pub record Places : Type 0 where
  pub template : Address
  pub init_page_table : Address

-- `OnceCell::set(..).unwrap()`.
abbrev pub set_once : FrameAllocator → Bitmap → Outcome FrameAllocator
set_once none bitmap = ok (some bitmap)
set_once (some _) bitmap = panic

-- The map without kernel areas.
unfoldable pub kernel_map : Symbols → List Extent → Map → Outcome Map
kernel_map symbols reserved original = do
  kernel_extent ← get_kernel_phys_extent symbols
  marked ← mark_kernel_areas (MemoryMap.entries original) reserved
  both ← mark_kernel_areas marked (kernel_extent ∷ [])
  MemoryMap.from_entries both

-- The bounds that the bootstrap frames have to keep.
unfoldable pub check_bootstrap : Symbols → FrameRange → Outcome (Unit {0})
check_bootstrap symbols frames = do
  following ← FrameRange.end frames
  next ← unwrap following
  extent ← Frame.extent next
  d ← distance extent.address 0
  assert (leb d (1024 * 1024 * 1024))
  kernel_extent ← get_kernel_phys_extent symbols
  end ← Extent.end_address kernel_extent
  assert (leb end frames.first.start)

-- What is reserved besides: the kernel image, the boot information and the first MiB.
unfoldable pub reserved_extents : Symbols → BootInfo → List Extent → Outcome (List Extent)
reserved_extents symbols boot_info reserved = do
  kernel_extent ← get_kernel_phys_extent symbols
  boot_extent ← Extent.from_raw boot_info.start_address boot_info.total_size
  low ← Extent.from_raw 0 (1024 * 1024)
  ok (reserved ++ (kernel_extent ∷ boot_extent ∷ low ∷ []))

-- `PhysFrame::from_start_address(PhysAddr::new(..)).unwrap()` of the crate x86_64 is a parameter: it
-- answers the frame's address or panics.
module _ (phys_frame : Address → Outcome Address) where
  unfoldable pub install_page_table : Symbols → Address → Statics → Outcome Statics
  install_page_table symbols root s = do
    phys ← kernel_ptr_to_phys_addr symbols root
    f ← phys_frame phys
    ok (record s { cr3 = some f })

  unfoldable pub set_up_initial_page_table : Symbols → Places → Statics → Outcome Statics
  set_up_initial_page_table symbols places s =
      install_page_table symbols places.init_page_table (record s {
        memory = write_table s.memory places.init_page_table (s.memory places.template);
      })

  unfoldable pub init : Symbols → Places → BootInfo → List Extent → Statics → Outcome Statics
  init symbols places boot_info reserved s = do
    assert (not s.is_initialized)
    original ← translate_memory_map boot_info
    full ← kernel_map symbols reserved original
    (i, frames, memory_map) ← take_bootstrap full
    check_bootstrap symbols frames
    built ←
        create_page_table_template (bootstrap_mapper places.template) symbols boot_info.sections
          (MemoryMap.entries original) (state s.memory (BumpAllocator.new frames))
    rest ← give_back i (BumpAllocator.remaining built.allocator) memory_map
    filled ← fill_bitmap_from_map s.frame_bitmap rest
    extents ← reserved_extents symbols boot_info reserved
    bitmap ← reserve_extents extents filled
    cell ← set_once s.frame_allocator bitmap
    set_up_initial_page_table symbols places (record {
      is_initialized = true;
      frame_bitmap = s.frame_bitmap;
      frame_allocator = cell;
      memory = built.memory;
      cr3 = s.cr3;
    })
