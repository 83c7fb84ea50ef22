-- ===== src/FillBitmap.antt =====
-- `fill_bitmap_from_map` of shared/src/memory/alloc/phys.rs, with its helpers on bits: it makes
-- the bitmap of `BitmapAllocator` from a memory map.
pub mod Tables
pub mod Bytes
pub mod Ends
pub mod Range
pub mod FromMap
pub mod Available
use testos.Base.{
  ℕ, zero, suc, ◌+◌, ◌-◌, ◌*◌, ◌/◌, ◌%◌, ◌^◌, List, [], ◌∷◌, bit_or, ltb, leb, ◌==◌, if◌then◌else◌,
  Option, none, some, Outcome, ok, panic, ◌>>=◌, ◌>>◌, assert, unwrap, add, sub, mul, length,
  get_elem?, set, replicate,
}
use testos.Extent
use testos.Frame
use testos.FrameRange
use testos.FrameRange.{FrameRange}
use testos.MemoryMap.{Map, MapEntry, entries, iter_type, iter_map_frames, available}
use testos.BitmapAllocator.{Bitmap, u8_max, shl_u8, rounds_of}

-- `FRAMES_PER_ENTRY` and `BYTES_PER_ENTRY`.
abbrev pub frames_per_entry : ℕ
frames_per_entry = 8

abbrev pub bytes_per_entry : ℕ
bytes_per_entry = 4096 * 8

unfoldable pub set_most_significant_bits : ℕ → ℕ
set_most_significant_bits num_bits =
    if num_bits == 0 then 0 else if ltb num_bits 8 then shl_u8 u8_max (8 - num_bits) else u8_max

unfoldable pub set_least_significant_bits : ℕ → ℕ
set_least_significant_bits num_bits =
    if num_bits == 0 then 0 else if ltb num_bits 8 then u8_max / 2 ^ (8 - num_bits) else u8_max

unfoldable pub ceil_divide : ℕ → ℕ → Outcome ℕ
ceil_divide x divisor = do s ← add x divisor; t ← sub s 1; ok (t / divisor)

-- `u64::next_multiple_of(8)`.
abbrev pub next_multiple_of_8 : ℕ → Outcome ℕ
next_multiple_of_8 x = if x % 8 == 0 then ok x else add x (8 - x % 8)

-- `bitmap[i] = u8::MAX` for the `n` bytes from `i` on.
unfoldable pub fill_bytes : ℕ → ℕ → Bitmap → Outcome Bitmap
fill_bytes zero i bitmap = ok bitmap
fill_bytes (suc n) i bitmap = do
  assert (ltb i (length bitmap))
  fill_bytes n (i + 1) (set bitmap i u8_max)

-- `bitmap[i] |= bits`.
unfoldable pub or_byte : ℕ → ℕ → Bitmap → Outcome Bitmap
or_byte i bits bitmap = do byte ← unwrap (get_elem? bitmap i); ok (set bitmap i (bit_or byte bits))

-- The frames before the first whole byte.
unfoldable pub fill_leading : ℕ → ℕ → Bitmap → Outcome Bitmap
fill_leading first first_aligned bitmap = if first == first_aligned then ok bitmap else do
  byte_after ← sub (first_aligned / frames_per_entry) 1
  assert (first / frames_per_entry == byte_after)
  num_bits ← sub first_aligned first
  assert (ltb num_bits 256)
  or_byte (first / frames_per_entry) (set_most_significant_bits num_bits) bitmap

-- The frames after the last whole byte.
unfoldable pub fill_trailing : ℕ → ℕ → Bitmap → Outcome Bitmap
fill_trailing end end_aligned bitmap = if end == end_aligned then ok bitmap else do
  final_frame ← sub end_aligned 1
  byte_before ← add (final_frame / frames_per_entry) 1
  assert (end / frames_per_entry == byte_before)
  num_bits ← sub end end_aligned
  assert (ltb num_bits 256)
  or_byte (end / frames_per_entry) (set_least_significant_bits num_bits) bitmap

-- The body of the loop over the ranges. The loop over `first_aligned..end_aligned` in steps of 8
-- visits byte `i / 8`, so that it goes through successive bytes.
unfoldable pub fill_range : FrameRange → Bitmap → Outcome Bitmap
fill_range r bitmap = do
  assert (leb (r.count / frames_per_entry) (length bitmap))
  let first = Frame.index r.first
  final ← FrameRange.last r
  end ← add (Frame.index final) 1
  first_aligned ← next_multiple_of_8 first
  end_aligned ← mul (end / frames_per_entry) frames_per_entry
  whole ← fill_bytes (rounds_of (end_aligned - first_aligned) 8) (first_aligned / 8) bitmap
  leading ← fill_leading first first_aligned whole
  fill_trailing end end_aligned leading

unfoldable pub fill_ranges : List FrameRange → Bitmap → Outcome Bitmap
fill_ranges [] bitmap = ok bitmap
fill_ranges (r ∷ rs) bitmap = do bitmap' ← fill_range r bitmap; fill_ranges rs bitmap'

-- `slice::last`.
abbrev pub last_entry : List MapEntry → Option MapEntry
last_entry [] = none
last_entry (e ∷ []) = some e
last_entry (e ∷ f ∷ es) = last_entry (f ∷ es)

unfoldable pub fill_bitmap_from_map : Bitmap → Map → Outcome Bitmap
fill_bitmap_from_map bitmap m = do
  final ← unwrap (last_entry (entries m))
  end ← Extent.end_address final.extent
  needed ← ceil_divide end bytes_per_entry
  assert (leb needed (length bitmap))
  frames ← iter_map_frames (iter_type m available)
  fill_ranges frames (replicate (length bitmap) 0)
