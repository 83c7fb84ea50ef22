-- ===== src/Tests/Fill.antt =====
-- The theorems on `fill_bitmap_from_map` at concrete inputs.
use testos.Base.{
  All, true, true_ne_false, sym, ℕ, ◌≡◌, List, ◌>>=◌, refl, arith, [], ◌∷◌, ok, length,
  if◌then◌else◌,
}
use testos.Addr.{align_down, is_aligned_to, align_up, align_u64_down, align_u64_up}
use testos.Extent
use testos.Extent.{Extent, extent}
use testos.Frame
use testos.Frame.{frame}
use testos.FrameRange
use testos.FrameRange.{FrameRange, range}
use testos.FrameRange.Valid.{IsRange}
use testos.MemoryMap.{
  Map, MapEntry, entry, available, reserved, entries, iter_type, iter_map_frames, entry_frames,
  of_type,
}
use testos.BitmapAllocator.{Bitmap}
use testos.BitmapAllocator.Spec.{IsBytes, free}
use testos.FillBitmap.{fill_range, fill_bitmap_from_map}
use testos.FillBitmap.Range.{Fills, fill_range-Fills}
use testos.Mm.Init.{reserve_extents}
use testos.Mm.Reserve.{in_any}
use testos.Mm.FreeFrames.{fill_bitmap_from_map-reserve_extents}
use testos.FillBitmap.FromMap.{in_some}
use testos.FillBitmap.Available.{is_available, in_available, IsFitting, fill_bitmap_from_map_frees}

-- Frames 3 to 20.
abbrev middle : FrameRange
middle = range (frame 12288) 18

middle-IsRange : IsRange middle
middle-IsRange = record { aligned = refl; nonempty = omega arith; fits = omega arith }

abbrev used : Bitmap
used = 0 ∷ 0 ∷ 0 ∷ []

fill_range-Fills_example : Fills middle used (fill_range middle used)
fill_range-Fills_example =
    fill_range-Fills middle used middle-IsRange (omega arith, (omega arith, (omega arith, tt)))
      (omega arith)

abbrev low_memory : MapEntry
low_memory = entry (extent 12288 73728) available

abbrev high_memory : MapEntry
high_memory = entry (extent 86016 8192) reserved

abbrev small_map : Map
small_map = record { entries = low_memory ∷ high_memory ∷ []; num_entries = 2 }

last_run : Extent.end_address (extent 86016 8192) ≡ ok 94208
unfolding Extent.end_address
last_run = refl

frames_run : iter_map_frames (iter_type small_map available) ≡ ok (middle ∷ [])
unfolding is_aligned_to iter_map_frames iter_type of_type entry_frames Extent.shrink_to_alignment
    align_down align_up align_u64_down align_u64_up Extent.new Extent.new_checked Extent.end_address
    Extent.last_address Extent.from_range_exclusive FrameRange.containing_extent
    FrameRange.between_inclusive FrameRange.new_unwrap FrameRange.new Frame.containing Frame.new
    Frame.next
frames_run = refl

small_map-IsFitting :
    All (λ e. is_available e.mem_type ≡ true → IsFitting 3 e.extent) small_map.entries
small_map-IsFitting = (
  λ _. record {
    valid = record { nonempty = omega arith; fits = omega arith };
    rounds = omega arith;
    fillable = λ _. (omega arith, omega arith, omega arith);
  },
  (λ e. absurd (true_ne_false (sym e)), tt),
)

fill_bitmap_from_map_frees_example :
    (after : Bitmap) × (fill_bitmap_from_map used small_map ≡ ok after)
    × (length after ≡ 3)
    × IsBytes after
    × ((j : ℕ) → free after j ≡ (if in_available small_map.entries j then 1 else 0))
fill_bitmap_from_map_frees_example =
    fill_bitmap_from_map_frees used small_map high_memory 94208 (unfold entries in refl) last_run
      (omega arith) (omega arith) small_map-IsFitting

-- The first of the frames that are free in the map holds the boot information.
abbrev boot_structure : List Extent
boot_structure = extent 36864 100 ∷ []

fill_bitmap_from_map-reserve_extents_example :
    (after : Bitmap) × ((fill_bitmap_from_map used small_map >>= reserve_extents boot_structure)
      ≡ ok after)
    × IsBytes after
    × ((j : ℕ)
        → free after j
          ≡ (if in_any boot_structure j then 0 else if in_some (middle ∷ []) j then 1 else 0))
fill_bitmap_from_map-reserve_extents_example =
    fill_bitmap_from_map-reserve_extents used small_map high_memory 94208 (middle ∷ [])
      boot_structure (unfold entries in refl) last_run (omega arith) (omega arith) frames_run
      ((middle-IsRange, omega arith, omega arith, omega arith), tt)
      (
        record {
          valid = record { nonempty = omega arith; fits = omega arith };
          inside = omega arith;
        },
        tt,
      )
