-- ===== src/Tests/Pages.antt =====
-- The theorems on pages at concrete inputs.
use mathlib.Core.Option
use testos.Base.{◌+◌, ◌*◌, ◌/◌, ◌^◌, ◌<◌, ◌≡◌, refl, map}
use testos.FrameRange
use testos.Page.{Page, page, l4_index, l3_index, l2_index, l1_index}
use testos.Page.Indices.{start-of_indices}
use testos.PageRange
use testos.PageRange.{PageRange, page_range}
use testos.PageRange.Iter.{
  as_page, as_pages, as_frame, as_frames, outcome_map, new-as_pages, iter-as_pages,
}

abbrev kernel_page : Page
kernel_page = page 0xffff800000201000

start-of_indices_example :
    (l4_index kernel_page < 512)
    × (l3_index kernel_page < 512)
    × (l2_index kernel_page < 512)
    × (l1_index kernel_page < 512)
    × (kernel_page.start
        ≡ (((kernel_page.start / 2 ^ 48 * 512 + l4_index kernel_page) * 512 + l3_index kernel_page)
                * 512
              + l2_index kernel_page)
            * 2 ^ 21
          + l1_index kernel_page * 4096)
start-of_indices_example = start-of_indices kernel_page refl

abbrev two_pages : PageRange
two_pages = page_range (page 8192) 2

new-as_pages_example :
    PageRange.new (page 8192) 2
    ≡ outcome_map (Option.map as_pages) (FrameRange.new (as_frame (page 8192)) 2)
new-as_pages_example = new-as_pages (page 8192) 2

iter-as_pages_example :
    PageRange.iter two_pages ≡ outcome_map (map as_page) (FrameRange.iter (as_frames two_pages))
iter-as_pages_example = iter-as_pages two_pages
