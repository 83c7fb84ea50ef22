-- ===== src/Tests/Bitmap.antt =====
-- The unit tests of shared/src/memory/alloc/phys.rs.
use testos.Base.{◌⊎◌, arith, ◌≡◌, refl, [], ◌∷◌, none, some, ok, panic}
use testos.Addr.{align_down, align_u64_down, is_aligned_to}
use testos.Frame
use testos.Frame.{Frame, frame}
use testos.FrameRange
use testos.BitmapAllocator.{
  Bitmap, allocate, allocate_range, allocate_bits, allocate_bytes, all_max, clear_bytes,
  offsets_to_frame,
}
use testos.BitmapAllocator.BitGroup.{find_bit_group, find_from}
use testos.BitmapAllocator.Spec.{IsBytes, free, Allocates}
use testos.BitmapAllocator.Small.{allocate_range-Allocates}
use testos.BitmapAllocator.Large.{AllocatesOrPanics, allocate_range-AllocatesOrPanics}
use testos.BitmapAllocator.OrderTwo.{allocate_range-in_use}
use testos.BitmapAllocator.Single.{
  nth_frame, Reserves, IsMarked, reserve_lem, deallocate_lem, reserve-unreserve,
}
use testos.BitmapAllocator.{reserve, unreserve, deallocate, reserved, frame_to_offsets}
use testos.FrameRange.{FrameRange, range}

find_bit_groups :
    (find_bit_group 0b00000001 1 ≡ ok (some 0))
    × (find_bit_group 0b00000011 2 ≡ ok (some 0))
    × (find_bit_group 0b00001111 4 ≡ ok (some 0))
    × (find_bit_group 0b11110000 4 ≡ ok (some 4))
    × (find_bit_group 0b11111100 2 ≡ ok (some 2))
    × (find_bit_group 0b01010101 2 ≡ ok none)
    × (find_bit_group 0b11101110 4 ≡ ok none)
unfolding find_bit_group find_from
find_bit_groups = (refl, refl, refl, refl, refl, refl, refl)

allocate_example :
    allocate (0b00100000 ∷ 0b00010000 ∷ 0b00000010 ∷ [])
    ≡ ok (some (frame 20480), 0 ∷ 0b00010000 ∷ 0b00000010 ∷ [])
unfolding allocate allocate_range allocate_bits offsets_to_frame find_bit_group find_from Frame.new
    Frame.next is_aligned_to align_down align_u64_down FrameRange.new
allocate_example = refl

range_example :
    allocate_range 4 (0 ∷ 0 ∷ 255 ∷ 255 ∷ [])
    ≡ ok (some (FrameRange.range (frame 65536) 16), 0 ∷ 0 ∷ 0 ∷ 0 ∷ [])
unfolding allocate_range allocate_bytes all_max clear_bytes offsets_to_frame Frame.new Frame.next
    is_aligned_to align_down align_u64_down FrameRange.new
range_example = refl

abbrev two_bytes : Bitmap
two_bytes = 0b00000111 ∷ 0b11111111 ∷ []

two_bytes-IsBytes : IsBytes two_bytes
two_bytes-IsBytes = (omega arith, (omega arith, tt))

allocate_range-Allocates_example : Allocates 2 0 two_bytes (allocate_range 1 two_bytes)
allocate_range-Allocates_example =
    allocate_range-Allocates 1 two_bytes (omega arith) two_bytes-IsBytes (omega arith)

allocate_range-AllocatesOrPanics_example :
    AllocatesOrPanics 2 two_bytes (allocate_range 4 two_bytes)
allocate_range-AllocatesOrPanics_example =
    allocate_range-AllocatesOrPanics 1 two_bytes (omega arith) two_bytes-IsBytes (omega arith)

allocate_range-in_use_example :
    (free two_bytes 3 ≡ 0)
    × ((after : Bitmap) × (allocate_range 2 two_bytes ≡ ok (some (range (frame 0) 4), after)))
allocate_range-in_use_example =
    allocate_range-in_use 0b00000111 (0b11111111 ∷ []) (omega arith) refl

reserve_lem_example : Reserves two_bytes 9 (reserve two_bytes (nth_frame 9))
reserve_lem_example = reserve_lem two_bytes 9 two_bytes-IsBytes (omega arith)

deallocate_lem_example :
    (unreserve two_bytes (nth_frame 5) ≡ deallocate two_bytes (nth_frame 5))
    × (((free two_bytes 5 ≡ 1) × (deallocate two_bytes (nth_frame 5) ≡ panic))
        ⊎ ((free two_bytes 5 ≡ 0)
            × ((after : Bitmap) × (deallocate two_bytes (nth_frame 5) ≡ ok after)
                × IsMarked two_bytes 5 1 after)))
deallocate_lem_example = deallocate_lem two_bytes 5 two_bytes-IsBytes (omega arith)

reserve_run : reserve two_bytes (nth_frame 9) ≡ ok (reserved, 0b00000111 ∷ 0b11111101 ∷ [])
unfolding reserve frame_to_offsets
reserve_run = refl

reserve-unreserve_example : unreserve (0b00000111 ∷ 0b11111101 ∷ []) (nth_frame 9) ≡ ok two_bytes
reserve-unreserve_example =
    reserve-unreserve two_bytes (0b00000111 ∷ 0b11111101 ∷ []) 9 two_bytes-IsBytes (omega arith)
      reserve_run
