-- ===== src/Mm/Clear.antt =====
-- The pages that `create_page_table_template` of src/mm.rs maps for the first MiB and for the kernel
-- image lie outside the direct mapping of physical memory.
use testos.Base.{
  ◌%◌, panic, ℕ, ◌-◌, ◌≤◌, ◌<◌, ◌≡◌, ◌⊎◌, inl, inr, refl, sym, ◌∙◌, subst, arith, Bool, true, false,
  none, some, List, [], ◌∷◌, ◌++◌, ok, ◌>>=◌, ◌>>◌, assert, if◌then◌else◌, ◌==◌, ◌&&◌, leb, All,
  u64_end, u64_max, unwrap, ltb, ◌||◌,
}
use testos.Addr.{Address}
use testos.Extent
use testos.Extent.{Extent, extent}
use testos.Extent.Overlap.{contains_iff}
use testos.Frame.{Frame, frame}
use testos.Page.{Page, l4_index}
use testos.Page.Indices.{l4_index-eq}
use testos.PageRange
use testos.PageRange.Fits.{
  Fits, IfOk, IfOk-bind, IfOk-then, FirstFits, containing_extent-FirstFits, iter-Fits,
}
use testos.Mm.{Symbols, first_mib, kernel_image}
use testos.Mm.Template.{Section, is_mapped_type}
use testos.Mm.Each.{collect}
use testos.Mm.Placed.{first_mib-pages}
use testos.Mm.Plan.{
  Group, page_flags, low_place, image_place, first_mib_plan, section_plan, allocated_plan,
  sections_plan,
}
use testos.Mm.Direct.{collect-All}

-- The first MiB lies under the first entry of the top table, and the kernel image under the last one.
abbrev pub IsOutside : Page × Frame → Type 0
IsOutside (p, f) = (l4_index p ≡ 0) ⊎ (l4_index p ≡ 511)

abbrev pub IsClear : Group → Type 0
IsClear (flags, ps) = All IsOutside ps

low_place-IsOutside : (p : Page) → p.start < 0x100000 → IfOk IsOutside (low_place p)
unfolding low_place
low_place-IsOutside p h = go (p.start % 4096 == 0)
  where
    go : (b : Bool) → IfOk IsOutside (if b then ok (p, frame p.start) else panic)
    go true = inl (l4_index-eq p ∙ omega arith)
    go false = tt

pub first_mib_plan-IsClear : IfOk (All IsClear) first_mib_plan
unfolding first_mib_plan
first_mib_plan-IsClear = IfOk-bind (All IsClear) first_mib _ (λ e ee.
    IfOk-bind (All IsClear) (PageRange.containing_extent e) _ (λ r er.
      IfOk-bind (All IsClear) (PageRange.iter r) _ (λ pages ep.
        IfOk-then (All IsOutside) (All IsClear) (collect low_place pages) _
          (collect-All IsOutside (λ p. p.start < 0x100000) low_place low_place-IsOutside pages
            (first_mib-pages e r pages ee er ep))
          (λ ps h. (h, tt)))))

abbrev image_start : Address
image_start = 0xffffffff80000000

image_place-IsOutside :
    (symbols : Symbols) (p : Page) → Fits image_start p → IfOk IsOutside (image_place symbols p)
unfolding image_place
image_place-IsOutside symbols p (above, below) =
    go (leb symbols.kernel_virt_base p.start && (p.start - symbols.kernel_virt_base) % 4096 == 0)
  where
    go :
        (b : Bool)
        → IfOk IsOutside (if b then ok (p, frame (p.start - symbols.kernel_virt_base)) else panic)
    go true = inr (l4_index-eq p ∙ omega arith)
    go false = tt

section_plan-IsClear :
    (symbols : Symbols) (section : Section) (e : Extent)
    → image_start ≤ e.address
    → e.address < u64_end
    → IfOk (All IsClear) (section_plan symbols section e)
unfolding section_plan
section_plan-IsClear symbols section e above below =
    IfOk-bind (All IsClear) (page_flags section.writable section.executable) _ (λ flags _.
      IfOk-then (FirstFits image_start) (All IsClear) (PageRange.containing_extent e) _
        (containing_extent-FirstFits image_start e (omega arith) below)
        (λ r i.
          IfOk-then (All (Fits image_start)) (All IsClear) (PageRange.iter r) _
            (iter-Fits image_start r i)
            (λ pages j.
              IfOk-then (All IsOutside) (All IsClear) (collect (image_place symbols) pages) _
                (collect-All IsOutside (Fits image_start) (image_place symbols)
                  (image_place-IsOutside symbols) pages j)
                (λ ps h. (h, tt)))))

abbrev IsSound : Extent → Type 0
IsSound e = (e.address < u64_end) × (0 < e.length)

from_raw-IsSound : (a l : ℕ) → a < u64_end → IfOk IsSound (Extent.from_raw a l)
unfolding Extent.new Extent.new_checked
from_raw-IsSound a l h = by_test (l == 0 || ltb (u64_max - a) l) refl
  where
    by_test :
        (b : Bool)
        → (l == 0 || ltb (u64_max - a) l) ≡ b
        → IfOk IsSound (unwrap (if b then none else some (extent a l)))
    by_test true e = tt
    by_test false e = (h, ground arith)

abbrev image_area : Extent
image_area = extent image_start 0x7fffffff

kernel_image-ok : kernel_image ≡ ok image_area
unfolding Extent.from_range_exclusive
kernel_image-ok = refl

inside_image :
    (e : Extent) → 0 < e.length → Extent.contains image_area e ≡ ok true → image_start ≤ e.address
inside_image e nonempty inside =
    let (r, er, iff) = contains_iff image_area e (omega arith) nonempty in
    let here = iff.0 (subst (IfOk (λ b. r ≡ b)) (sym er ∙ inside) refl) e.address (omega arith) in
    here.0

allocated_plan-IsClear :
    (symbols : Symbols) (section : Section) (e : Extent)
    → IsSound e
    → IfOk (All IsClear) (allocated_plan symbols section e)
unfolding allocated_plan
allocated_plan-IsClear symbols section e (below, nonempty) =
    IfOk-bind (All IsClear) section.in_bootstrap _ (λ skipped _. by_skip skipped)
  where
    by_type :
        (b : Bool)
        → image_start ≤ e.address
        → IfOk (All IsClear) (if b then section_plan symbols section e else ok [])
    by_type true above = section_plan-IsClear symbols section e above below
    by_type false above = tt

    by_inside :
        (inside : Bool)
        → Extent.contains image_area e ≡ ok inside
        → IfOk (All IsClear) (
            assert inside
            >> (if is_mapped_type section.section_type
                then section_plan symbols section e
                else ok []))
    by_inside true h = by_type (is_mapped_type section.section_type) (inside_image e nonempty h)
    by_inside false h = tt

    by_skip :
        (skipped : Bool)
        → IfOk (All IsClear) (
            if skipped then ok [] else do
              area ← kernel_image
              inside ← Extent.contains area e
              assert inside
              (if is_mapped_type section.section_type
                  then section_plan symbols section e
                  else ok []))
    by_skip true = tt
    by_skip false =
        rw kernel_image-ok (IfOk-bind (All IsClear) (Extent.contains image_area e) _ by_inside)

pub All-append : (gs hs : List Group) → All IsClear gs → All IsClear hs → All IsClear (gs ++ hs)
All-append [] hs g h = h
All-append (x ∷ gs) hs g h = (g.0, All-append gs hs g.1 h)

pub sections_plan-IsClear :
    (symbols : Symbols) (sections : List Section)
    → All (λ section. section.start_address < u64_end) sections
    → IfOk (All IsClear) (sections_plan symbols sections)
unfolding sections_plan
sections_plan-IsClear symbols [] fits = tt
sections_plan-IsClear symbols (section ∷ rest) fits =
    IfOk-then IsSound (All IsClear) (Extent.from_raw section.start_address section.size) _
      (from_raw-IsSound section.start_address section.size fits.0)
      (λ e sound.
        IfOk-then (All IsClear) (All IsClear)
          (if section.allocated then allocated_plan symbols section e else ok []) _
          (by_allocated section.allocated e sound)
          (λ first g.
            IfOk-then (All IsClear) (All IsClear) (sections_plan symbols rest) _
              (sections_plan-IsClear symbols rest fits.1)
              (λ others h. All-append first others g h)))
  where
    by_allocated :
        (b : Bool) (e : Extent)
        → IsSound e
        → IfOk (All IsClear) (if b then allocated_plan symbols section e else ok [])
    by_allocated true e sound = allocated_plan-IsClear symbols section e sound
    by_allocated false e sound = tt
