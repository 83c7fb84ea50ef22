-- ===== src/Tests/Mm.antt =====
-- The theorems on the frames and chunks of src/mm.rs at concrete inputs.
use testos.Base.{refl, inl, arith, true, false, some, [], ◌∷◌, List, ok}
use testos.Extent.{extent}
use testos.Frame.{frame}
use testos.FrameRange.{range}
use testos.MemoryMap
use testos.MemoryMap.{MapEntry, available}
use testos.BumpAllocator.{BumpAllocator, bump}
use testos.Paging.{zero_table}
use testos.Paging.Action.{State, state}
use testos.Mm.{Symbols}
use testos.Mm.Bootstrap.{bootstrap_mapper, Usable, Left, bump-Takes}
use testos.Mm.Template.{Section, program_section, create_page_table_template}
use testos.Mm.Plan.{template_plan}
use testos.Mm.Follows.{Follows}
use testos.Mm.Whole.{at_start, nothing_mapped, create_page_table_template-Follows}
use testos.BitmapAllocator.{Bitmap}
use testos.BitmapAllocator.Spec.{IsBytes}
use testos.Mm.Owned.{Restores, allocate_owned_frames-drop}
use testos.Mm.Provider.{ProvidesChunk, provide_chunks-ProvidesChunk}

abbrev half_used : Bitmap
half_used = 0b00001101 ∷ 0b11110000 ∷ []

half_used-IsBytes : IsBytes half_used
half_used-IsBytes = (omega arith, (omega arith, tt))

allocate_owned_frames-drop_example : Restores 1 half_used
allocate_owned_frames-drop_example =
    allocate_owned_frames-drop 1 half_used (inl (omega arith)) half_used-IsBytes (omega arith)

provide_chunks-ProvidesChunk_example : ProvidesChunk half_used
provide_chunks-ProvidesChunk_example =
    provide_chunks-ProvidesChunk half_used (omega arith) half_used-IsBytes

abbrev linked_high : Symbols
linked_high = record {
  kernel_phys_begin = 0x100000;
  kernel_phys_end = 0x140000;
  kernel_virt_base = 0xffffffff80000000;
}

abbrev text : Section
text = record {
  section_type = program_section;
  allocated = true;
  writable = false;
  executable = true;
  in_bootstrap = ok false;
  start_address = 0xffffffff80100000;
  size = 0x3000;
}

abbrev one_area : List MapEntry
one_area = MemoryMap.entry (extent 0x100000 0x200000) available ∷ []

abbrev at_boot : State BumpAllocator
at_boot = state (λ a. zero_table) (bump (some (range (frame 0x200000) 4096)))

create_page_table_template-Follows_example :
    Follows
      (bootstrap_mapper 0x7000)
      Usable
      Left
      nothing_mapped
      (at_start (bootstrap_mapper 0x7000) at_boot)
      (template_plan linked_high (text ∷ []) one_area)
      (create_page_table_template
        (bootstrap_mapper 0x7000)
        linked_high
        (text ∷ [])
        one_area
        at_boot)
create_page_table_template-Follows_example =
    create_page_table_template-Follows (bootstrap_mapper 0x7000) Usable Left (bump-Takes 0x7000)
      linked_high (text ∷ []) one_area at_boot (omega arith) (omega arith, tt)
      (omega arith, refl, omega arith, omega arith) (λ x (from, below) e. omega arith)
