-- ===== src/Mm/Frames.antt =====
-- The frames that src/mm.rs hands out: `FRAME_ALLOCATOR`, owned ranges of frames, and `HeapProvider`.
-- The allocator is its bitmap, once it is set. The locks make each function one step.
use testos.Base.{
  ℕ, zero, suc, ◌+◌, ◌*◌, ◌/◌, ◌%◌, true, false, Option, none, some, leb, ◌==◌, Outcome, ok, panic,
  ◌>>=◌, unwrap,
}
use testos.Frame.{Frame, page_size}
use testos.FrameRange.{FrameRange}
use testos.BitmapAllocator
use testos.BitmapAllocator.{Bitmap}
use testos.Heap.{Slice, slice}
use testos.Mm.{phys_to_virt}

abbrev pub FrameAllocator : Type 0
FrameAllocator = Option Bitmap

unfoldable pub allocate_frames : ℕ → FrameAllocator → Outcome (Option FrameRange × FrameAllocator)
allocate_frames order guard = do
  frame_allocator ← unwrap guard
  (r, after) ← BitmapAllocator.allocate_range order frame_allocator
  ok (r, some after)

unfoldable pub allocate_frame : FrameAllocator → Outcome (Option Frame × FrameAllocator)
allocate_frame guard = do
  (r, after) ← allocate_frames 0 guard
  ok (elim r [ none ↦ none | some frames ↦ some frames.first ], after)

unfoldable pub deallocate_frames : FrameRange → FrameAllocator → Outcome FrameAllocator
deallocate_frames frames guard = do
  frame_allocator ← unwrap guard
  after ← BitmapAllocator.deallocate_range frames frame_allocator
  ok (some after)

pub record OwnedFrameRange : Type 0 where
  pub frames : FrameRange

abbrev pub owned : FrameRange → OwnedFrameRange
owned r = record { frames = r }

unfoldable pub allocate_owned_frames :
    ℕ → FrameAllocator → Outcome (Option OwnedFrameRange × FrameAllocator)
allocate_owned_frames order guard = do
  (r, after) ← allocate_frames order guard
  ok (elim r [ none ↦ none | some frames ↦ some (owned frames) ], after)

unfoldable pub drop : OwnedFrameRange → FrameAllocator → Outcome FrameAllocator
drop o guard = deallocate_frames o.frames guard

-- `usize::next_power_of_two`: the powers of two below 2^64 in turn, which are 64.
unfoldable pub power_from : ℕ → ℕ → ℕ → Outcome ℕ
power_from zero p n = panic
power_from (suc fuel) p n = elim (leb n p) [ true ↦ ok p | false ↦ power_from fuel (2 * p) n ]

abbrev pub next_power_of_two : ℕ → Outcome ℕ
next_power_of_two n = power_from 64 1 n

-- `usize::trailing_zeros`, of 64 bits.
unfoldable pub zeros_from : ℕ → ℕ → ℕ
zeros_from zero n = 0
zeros_from (suc fuel) n = elim (n % 2 == 0) [ true ↦ zeros_from fuel (n / 2) + 1 | false ↦ 0 ]

abbrev pub trailing_zeros : ℕ → ℕ
trailing_zeros n = zeros_from 64 n

-- `HeapProvider::allocate`.
unfoldable pub provide_chunks : FrameAllocator → ℕ → Outcome (Slice × FrameAllocator)
provide_chunks guard num_chunks = do
  frame_alloc ← unwrap guard
  num_frames ← next_power_of_two num_chunks
  let order = trailing_zeros num_frames
  (r, after) ← BitmapAllocator.allocate_range order frame_alloc
  frames ← unwrap r
  ptr ← phys_to_virt frames.first.start
  ok (slice ptr (num_chunks * page_size), some after)
