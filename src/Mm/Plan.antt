-- ===== src/Mm/Plan.antt =====
-- What `create_page_table_template` of src/mm.rs is to map, as a list of pages and frames that no page
-- table occurs in: the flags and places are stated apart from those of the code.
use testos.Base.{
  ◌+◌, ◌-◌, ◌%◌, ltb, leb, ◌==◌, ◌&&◌, List, [], ◌∷◌, ◌++◌, Outcome, ok, panic, ◌>>=◌, ◌>>◌, assert,
  Bool, true, false, if◌then◌else◌,
}
use testos.Extent
use testos.Extent.{Extent}
use testos.Frame.{Frame, frame}
use testos.FrameRange
use testos.Page.{Page, page}
use testos.PageRange
use testos.MemoryMap.{MapEntry}
use testos.Paging.Flags.{PageTableFlags}
use testos.Paging.Action.{done, Mapper, Action, after}
use testos.Mm.{Symbols, first_mib, kernel_image}
use testos.Mm.Template.{Section, is_mapped_type}
use testos.Mm.Each.{View, map_pages, assign, collect}

-- Pages and frames that are mapped with the same flags.
abbrev pub Group : Type 0
Group = PageTableFlags × List (Page × Frame)

-- The flags of pages of memory: present, writable and not executable.
abbrev pub data_page_flags : PageTableFlags
data_page_flags = 0x8000000000000003

-- The flags of the pages of a section: present in any case, writable or executable as it asks for, and
-- not executable if it does not. There are none for a section that asks for both.
unfoldable pub page_flags : Bool → Bool → Outcome PageTableFlags
page_flags true true = panic
page_flags true false = ok 0x8000000000000003
page_flags false true = ok 0x0000000000000001
page_flags false false = ok 0x8000000000000001

-- Where a frame of memory belongs: in the direct mapping, if it is below 128 GiB.
unfoldable pub memory_place : Frame → Outcome (Page × Frame)
memory_place f =
    if ltb f.start 0x2000000000 && f.start % 4096 == 0
    then ok (page (0xffff800000000000 + f.start), f)
    else panic

-- A page of the first MiB is mapped to the frame at the same address.
unfoldable pub low_place : Page → Outcome (Page × Frame)
low_place p = if p.start % 4096 == 0 then ok (p, frame p.start) else panic

-- A page of the kernel image is mapped to the frame at its distance from the base of the image.
unfoldable pub image_place : Symbols → Page → Outcome (Page × Frame)
image_place symbols p =
    if leb symbols.kernel_virt_base p.start && (p.start - symbols.kernel_virt_base) % 4096 == 0
    then ok (p, frame (p.start - symbols.kernel_virt_base))
    else panic

-- The pages of a plan mapped one after the other, up to the first error.
unfoldable pub map_groups {ℓ} : {S : Type ℓ} → Mapper S → List Group → Action S (Unit {0})
map_groups mapper [] s = ok (done tt, s)
map_groups mapper ((flags, ps) ∷ gs) s =
    after (map_pages mapper flags ps s) (λ _. map_groups mapper gs)

unfoldable pub assign_all : List Group → View → View
assign_all [] view = view
assign_all ((flags, ps) ∷ rest) view = assign_all rest (assign flags ps view)

unfoldable pub memory_plan : List MapEntry → Outcome (List Group)
memory_plan [] = ok []
memory_plan (e ∷ es) = do
  r ← FrameRange.containing_extent e.extent
  frames ← FrameRange.iter r
  ps ← collect memory_place frames
  rest ← memory_plan es
  ok ((data_page_flags, ps) ∷ rest)

unfoldable pub first_mib_plan : Outcome (List Group)
first_mib_plan = do
  extent ← first_mib
  r ← PageRange.containing_extent extent
  pages ← PageRange.iter r
  ps ← collect low_place pages
  ok ((data_page_flags, ps) ∷ [])

unfoldable pub section_plan : Symbols → Section → Extent → Outcome (List Group)
section_plan symbols section extent = do
  flags ← page_flags section.writable section.executable
  r ← PageRange.containing_extent extent
  pages ← PageRange.iter r
  ps ← collect (image_place symbols) pages
  ok ((flags, ps) ∷ [])

-- Sections that take no memory or that only the bootstrap uses are left out.
unfoldable pub allocated_plan : Symbols → Section → Extent → Outcome (List Group)
allocated_plan symbols section extent = do
  skipped ← section.in_bootstrap
  if skipped then ok [] else do
    area ← kernel_image
    inside ← Extent.contains area extent
    assert inside
    if is_mapped_type section.section_type then section_plan symbols section extent else ok []

unfoldable pub sections_plan : Symbols → List Section → Outcome (List Group)
sections_plan symbols [] = ok []
sections_plan symbols (section ∷ rest) = do
  extent ← Extent.from_raw section.start_address section.size
  first ← (if section.allocated then allocated_plan symbols section extent else ok [])
  others ← sections_plan symbols rest
  ok (first ++ others)

unfoldable pub template_plan : Symbols → List Section → List MapEntry → Outcome (List Group)
template_plan symbols sections memory_map = do
  memory ← memory_plan memory_map
  others ← (do
    low ← first_mib_plan
    image_groups ← sections_plan symbols sections
    ok (low ++ image_groups))
  ok (memory ++ others)
