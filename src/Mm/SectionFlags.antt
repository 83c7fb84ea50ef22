-- ===== src/Mm/SectionFlags.antt =====
-- The flags that `create_page_table_template` of src/mm.rs gives the pages of a section are those of the
-- plan.
use testos.Base.{◌%◌, ◌≡◌, refl, Bool, true, false, not, ok, ◌>>◌, assert, if◌then◌else◌, bit_or}
use testos.Paging.Flags
use testos.Paging.Flags.{PageTableFlags}
use testos.Paging.Entry.{IsFlags}
use testos.PageRange.Fits.{IfOk}
use testos.Mm.Template.{Section, section_flags}
use testos.Mm.Plan.{page_flags}

abbrev pub KnownFlags : PageTableFlags → Type 0
KnownFlags f = IsFlags f × (f % 2 ≡ 1)

pub section_flags-eq :
    (section : Section) → section_flags section ≡ page_flags section.writable section.executable
unfolding section_flags page_flags
section_flags-eq section = by_flags section.executable section.writable
  where
    by_flags :
        (x w : Bool)
        → (let leaf_flags =
              if x then Flags.present else bit_or Flags.present Flags.execute_disable in
            if w then (do assert (not x); ok (bit_or leaf_flags Flags.writable)) else ok leaf_flags)
          ≡ page_flags w x
    by_flags true true = refl
    by_flags true false = refl
    by_flags false true = refl
    by_flags false false = refl

pub page_flags-KnownFlags : (w x : Bool) → IfOk KnownFlags (page_flags w x)
unfolding page_flags
page_flags-KnownFlags true true = tt
page_flags-KnownFlags true false = (refl, refl)
page_flags-KnownFlags false true = (refl, refl)
page_flags-KnownFlags false false = (refl, refl)
