-- ===== src/Mm/Provider.antt =====
-- `HeapProvider` of src/mm.rs, which gives the heap chunks of the direct mapping.
use testos.Base.{
  ℕ, ◌+◌, ◌*◌, ◌≤◌, ◌≡◌, refl, ap, ◌∙◌, arith, Option, none, some, ok, panic, length, ◌==◌,
  if◌then◌else◌,
}
use testos.Frame.{frame}
use testos.FrameRange.{FrameRange, range}
use testos.BitmapAllocator
use testos.BitmapAllocator.{Bitmap}
use testos.BitmapAllocator.Spec.{IsBytes, free, Grants, granted, refused, NoneFree}
use testos.BitmapAllocator.Small.{allocate_range-Allocates}
use testos.Heap.{slice}
use testos.Mm.{max_memory_frames}
use testos.Mm.Frames.{provide_chunks, power_from, zeros_from}
use testos.Mm.Translate.{phys_map_start, phys_to_virt-ok}

-- What a request of one chunk does: a frame that was free is taken, and its page in the direct
-- mapping is the chunk. If no frame is free it panics.
pub data ProvidesChunk (before : Bitmap) : Type 0 where
  provides :
      (n : ℕ) (after : Bitmap)
      → provide_chunks (some before) 1 ≡ ok (slice (phys_map_start + n * 4096) 4096, some after)
      → free before n ≡ 1
      → ((j : ℕ) → free after j ≡ (if j == n then 0 else free before j))
      → ProvidesChunk before
  out_of_memory : provide_chunks (some before) 1 ≡ panic → NoneFree before 1 → ProvidesChunk before

module _ (before : Bitmap) (small : 8 * length before ≤ max_memory_frames) where
  chunk-ok :
      (n : ℕ) (r : Option FrameRange) (after : Bitmap)
      → BitmapAllocator.allocate_range 0 before ≡ ok (r, after)
      → r ≡ some (range (frame ((0 * 8 + n) * 4096)) 1)
      → n + 1 ≤ 8 * length before
      → provide_chunks (some before) 1 ≡ ok (slice (phys_map_start + n * 4096) 4096, some after)
  unfolding provide_chunks power_from zeros_from
  chunk-ok n r after e er inside =
      let place : (0 * 8 + n) * 4096 ≡ n * 4096 = omega arith in
      rw (e, er, place, phys_to_virt-ok (n * 4096) (omega arith)) refl

  chunk-panic :
      (after : Bitmap)
      → BitmapAllocator.allocate_range 0 before ≡ ok (none, after)
      → provide_chunks (some before) 1 ≡ panic
  unfolding provide_chunks power_from zeros_from
  chunk-panic after e = rw e refl

  granted-provides :
      (r : Option FrameRange) (after : Bitmap)
      → BitmapAllocator.allocate_range 0 before ≡ ok (r, after)
      → Grants 1 0 before after r
      → ProvidesChunk before
  granted-provides r after e (refused er eb gone) =
      out_of_memory (chunk-panic after (e ∙ ap (λ t. ok (t, after)) er)) gone
  granted-provides r after e (granted n er al inside was_free marks) =
      provides n after (chunk-ok n r after e er inside) (was_free n (omega arith) (omega arith))
        (λ j. ground (arith, marks j))

-- With a bitmap of the size of the kernel's or a smaller one, a request of one chunk gives a page of
-- the direct mapping whose frame was free, and takes that frame and no other. If no frame is free,
-- it panics.
pub provide_chunks-ProvidesChunk :
    (before : Bitmap)
    → 8 * length before ≤ max_memory_frames
    → IsBytes before
    → ProvidesChunk before
provide_chunks-ProvidesChunk before small b =
    let a = allocate_range-Allocates 0 before (omega arith) b (omega arith) in
    granted-provides before small a.result a.after a.returns a.grants
