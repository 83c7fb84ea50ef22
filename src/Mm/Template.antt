-- ===== src/Mm/Template.antt =====
-- `create_page_table_template` of src/mm.rs: the page tables that every address space shares. The
-- sections of the kernel image are a parameter, as the boot information lists them.
use testos.Base.{
  ℕ, Bool, true, false, not, if◌then◌else◌, List, [], ◌∷◌, Outcome, ok, panic, ◌>>=◌, ◌>>◌, assert,
  bit_or,
}
use testos.Addr.{Address, distance}
use testos.Extent
use testos.Extent.{Extent}
use testos.Frame
use testos.Frame.{Frame}
use testos.FrameRange
use testos.Page
use testos.Page.{Page}
use testos.PageRange
use testos.MemoryMap.{MapEntry}
use testos.Paging.Flags.{
  PageTableFlags, present, writable, global, execute_disable, app_parent_frozen, all,
}
use testos.Paging.{zero_table}
use testos.Paging.Action.{Result, done, failed, Mapper, State, state, write_table}
use testos.Paging.Mapper.{map}
use testos.Mm.{Symbols, first_mib, kernel_image, phys_to_virt}

-- The types of section that occupy memory, and the others.
pub data SectionType : Type 0 where
  program_section uninitialized other_section : SectionType

-- A section: `in_bootstrap` is `name().unwrap().starts_with(".bootstrap")`, which may panic.
pub record Section : Type 0 where
  pub section_type : SectionType
  pub allocated : Bool
  pub writable : Bool
  pub executable : Bool
  pub in_bootstrap : Outcome Bool
  pub start_address : Address
  pub size : ℕ

-- Flags of parent entries, `shared_parent_flags | WRITABLE`.
abbrev pub parent_flags : PageTableFlags
parent_flags = bit_or (bit_or (bit_or present global) app_parent_frozen) writable

-- `PRESENT | WRITABLE | EXECUTE_DISABLE`.
abbrev pub data_flags : PageTableFlags
data_flags = bit_or (bit_or present writable) execute_disable

-- The page of the direct mapping for a frame.
unfoldable pub direct : Frame → Outcome (Page × Frame)
direct f = do v ← phys_to_virt f.start; p ← Page.new v; ok (p, f)

-- The frame at the address of a page.
unfoldable pub identity : Page → Outcome (Page × Frame)
identity p = do f ← Frame.new p.start; ok (p, f)

-- The frame of a page of the kernel image.
unfoldable pub image : Symbols → Page → Outcome (Page × Frame)
image symbols p = do d ← distance p.start symbols.kernel_virt_base; f ← Frame.new d; ok (p, f)

unfoldable pub is_mapped_type : SectionType → Bool
is_mapped_type program_section = true
is_mapped_type uninitialized = true
is_mapped_type other_section = false

-- The flags for the pages of a section.
unfoldable pub section_flags : Section → Outcome PageTableFlags
section_flags s =
    let leaf_flags = if s.executable then present else bit_or present execute_disable in
    if s.writable
    then (do assert (not s.executable); ok (bit_or leaf_flags writable))
    else ok leaf_flags

-- `unwrap` of the result of `map`.
abbrev pub must_map {ℓ} : {S : Type ℓ} → Outcome (Result (Unit {0}) × State S) → Outcome (State S)
must_map panic = panic
must_map (ok (failed e, s)) = panic
must_map (ok (done _, s)) = ok s

module _ {ℓ} {S : Type ℓ} (mapper : Mapper S) where
  -- The loops that map one page after the other.
  unfoldable pub map_each {κ} :
      {A : Type κ}
      → (A → Outcome (Page × Frame))
      → PageTableFlags
      → List A
      → State S
      → Outcome (State S)
  map_each place leaf_flags [] s = ok s
  map_each place leaf_flags (x ∷ xs) s = do
    (p, f) ← place x
    s' ← must_map (map mapper p f leaf_flags parent_flags all s)
    map_each place leaf_flags xs s'

  unfoldable pub map_memory : List MapEntry → State S → Outcome (State S)
  map_memory [] s = ok s
  map_memory (e ∷ es) s = do
    r ← FrameRange.containing_extent e.extent
    frames ← FrameRange.iter r
    s' ← map_each direct data_flags frames s
    map_memory es s'

  unfoldable pub map_section : Symbols → Section → Extent → State S → Outcome (State S)
  map_section symbols section extent s = do
    leaf_flags ← section_flags section
    r ← PageRange.containing_extent extent
    pages ← PageRange.iter r
    map_each (image symbols) leaf_flags pages s

  -- One round of the loop over the sections, from the first `continue` on.
  unfoldable pub map_allocated : Symbols → Section → Extent → State S → Outcome (State S)
  map_allocated symbols section extent s = do
    skipped ← section.in_bootstrap
    if skipped then ok s else do
      area ← kernel_image
      inside ← Extent.contains area extent
      assert inside
      if is_mapped_type section.section_type then map_section symbols section extent s else ok s

  unfoldable pub map_sections : Symbols → List Section → State S → Outcome (State S)
  map_sections symbols [] s = ok s
  map_sections symbols (section ∷ rest) s = do
    extent ← Extent.from_raw section.start_address section.size
    s' ← (if section.allocated then map_allocated symbols section extent s else ok s)
    map_sections symbols rest s'

  unfoldable pub map_first_mib : State S → Outcome (State S)
  map_first_mib s = do
    extent ← first_mib
    r ← PageRange.containing_extent extent
    pages ← PageRange.iter r
    map_each identity data_flags pages s

  -- The table stands at the mapper's root; the template is what stands there in the end.
  unfoldable pub create_page_table_template :
      Symbols → List Section → List MapEntry → State S → Outcome (State S)
  create_page_table_template symbols sections memory_map s = do
    s1 ← map_memory memory_map (state (write_table s.memory mapper.level_4 zero_table) s.allocator)
    s2 ← map_first_mib s1
    map_sections symbols sections s2
