-- ===== src/BitmapAllocator.antt =====
-- `BitmapFrameAllocator` of shared/src/memory/alloc/phys.rs: one bit per frame, set where the
-- frame is free. The allocator's state is the bitmap, a list of bytes. A slice has at most
-- `isize::MAX` bytes, so that sums of its indices do not overflow.
pub mod BitGroup
pub mod Tables
pub mod Spec
mod Groups
pub mod Small
pub mod Single
mod Bytes
pub mod Large
pub mod OrderTwo
pub mod Release
use testos.Base.{
  ℕ, zero, suc, ◌+◌, ◌-◌, ◌*◌, ◌/◌, ◌%◌, ◌^◌, Bool, true, false, Option, none, some, List, [], ◌∷◌,
  bit_and, bit_or, ltb, leb, ◌==◌, if◌then◌else◌, Outcome, ok, panic, ◌>>=◌, ◌>>◌, assert, unwrap,
  add, mul, length, get_elem?, set,
}
use testos.Frame
use testos.Frame.{Frame, page_size}
use testos.FrameRange
use testos.FrameRange.{FrameRange}
use BitGroup.{find_bit_group}

abbrev pub Bitmap : Type 0
Bitmap = List ℕ

-- `u8::MAX`.
abbrev pub u8_max : ℕ
u8_max = 255

unfoldable pub offsets_to_frame : ℕ → ℕ → Outcome Frame
offsets_to_frame byte_offset bit_offset = do
  pages ← mul byte_offset page_size
  bytes ← mul pages 8
  rest ← mul bit_offset page_size
  addr ← add bytes rest
  Frame.new addr

unfoldable pub frame_to_offsets : Frame → ℕ × ℕ
frame_to_offsets f = (f.start / page_size / 8, f.start / page_size % 8)

-- `deallocate_impl` at a byte and a bit.
unfoldable pub release : Bitmap → ℕ → ℕ → Outcome Bitmap
release bitmap byte_offset bit_offset = do
  byte ← unwrap (get_elem? bitmap byte_offset)
  assert (bit_and byte (2 ^ bit_offset) == 0)
  ok (set bitmap byte_offset (bit_or byte (2 ^ bit_offset)))

unfoldable pub deallocate_impl : Bitmap → Frame → Outcome Bitmap
deallocate_impl bitmap f =
    let (byte_offset, bit_offset) = frame_to_offsets f in release bitmap byte_offset bit_offset

-- `unreserve_impl` has the same body.
unfoldable pub unreserve_impl : Bitmap → Frame → Outcome Bitmap
unreserve_impl bitmap f =
    let (byte_offset, bit_offset) = frame_to_offsets f in release bitmap byte_offset bit_offset

unfoldable pub add_new_frame : Bitmap → Frame → Outcome Bitmap
add_new_frame bitmap f = unreserve_impl bitmap f

-- `mask << boff` on `u8`: the bits that are shifted out are lost.
abbrev pub shl_u8 : ℕ → ℕ → ℕ
shl_u8 x k = x * 2 ^ k % 256

-- The loop of `allocate_range` for fewer than 8 frames, at byte `i`, over the bytes that are left.
unfoldable pub allocate_bits : ℕ → ℕ → List ℕ → Outcome (Option FrameRange × List ℕ)
allocate_bits size i [] = ok (none, [])
allocate_bits size i (byte ∷ rest) = do
  group ← (if byte == 0 then ok none else find_bit_group byte size)
  let later = do (r, rest') ← allocate_bits size (i + 1) rest; ok (r, byte ∷ rest')
  elim group [
    | none ↦ later
    | some boff ↦ do
      assert (ltb (2 ^ size - 1) 256)
      f ← offsets_to_frame i boff
      r ← FrameRange.new f size
      ok (r, bit_and byte (u8_max - shl_u8 (2 ^ size - 1) boff) ∷ rest)
  ]

-- Whether the `n` bytes from `j` on are all `u8::MAX`.
unfoldable pub all_max : ℕ → ℕ → Bitmap → Outcome Bool
all_max zero j bitmap = ok true
all_max (suc n) j bitmap = do
  byte ← unwrap (get_elem? bitmap j)
  let later = all_max n (j + 1) bitmap
  if byte == u8_max then later else ok false

unfoldable pub clear_bytes : ℕ → ℕ → Bitmap → Bitmap
clear_bytes zero j bitmap = bitmap
clear_bytes (suc n) j bitmap = clear_bytes n (j + 1) (set bitmap j 0)

-- The loop of `allocate_range` for 8 frames or more, with the number of rounds that are left of
-- `(0..len).step_by(byte_len)`. After the last round the code is `unreachable!()`.
unfoldable pub allocate_bytes : ℕ → ℕ → ℕ → Bitmap → Outcome (Option FrameRange × Bitmap)
allocate_bytes zero size i bitmap = panic
allocate_bytes (suc rounds) size i bitmap =
    let byte_len = size / 8 in
    let later = allocate_bytes rounds size (i + byte_len) bitmap in
    if ltb (length bitmap) (i + byte_len) then ok (none, bitmap) else do
      whole ← all_max byte_len i bitmap
      elim whole [
        | false ↦ later
        | true ↦ do
          f ← offsets_to_frame i 0
          r ← FrameRange.new f size
          ok (r, clear_bytes byte_len i bitmap)
      ]

-- The rounds of `(0..len).step_by(byte_len)`.
abbrev pub rounds_of : ℕ → ℕ → ℕ
rounds_of len byte_len = (len + byte_len - 1) / byte_len

unfoldable pub allocate_range : ℕ → Bitmap → Outcome (Option FrameRange × Bitmap)
allocate_range order bitmap = do
  assert (leb order 24)
  let size = 2 ^ order
  if ltb size 8
      then allocate_bits size 0 bitmap
      else allocate_bytes (rounds_of (length bitmap) (size / 8)) size 0 bitmap

-- The trait's default method.
unfoldable pub allocate : Bitmap → Outcome (Option Frame × Bitmap)
allocate bitmap = do
  (r, bitmap') ← allocate_range 0 bitmap
  ok (elim r [ none ↦ none | some s ↦ some s.first ], bitmap')

unfoldable pub deallocate : Bitmap → Frame → Outcome Bitmap
deallocate bitmap f = deallocate_impl bitmap f

unfoldable pub deallocate_frames : List Frame → Bitmap → Outcome Bitmap
deallocate_frames [] bitmap = ok bitmap
deallocate_frames (f ∷ fs) bitmap = do bitmap' ← deallocate bitmap f; deallocate_frames fs bitmap'

unfoldable pub deallocate_range : FrameRange → Bitmap → Outcome Bitmap
deallocate_range r bitmap = do fs ← FrameRange.iter r; deallocate_frames fs bitmap

-- `Result<(), FrameReserveError>`.
pub data ReserveResult : Type 0 where
  reserved frame_in_use : ReserveResult

unfoldable pub reserve : Bitmap → Frame → Outcome (ReserveResult × Bitmap)
reserve bitmap f =
    let (byte_offset, bit_offset) = frame_to_offsets f in
    let mask = 2 ^ bit_offset in
    do
      byte ← unwrap (get_elem? bitmap byte_offset)
      if ltb 0 (bit_and byte mask)
          then ok (reserved, set bitmap byte_offset (bit_and byte (u8_max - mask)))
          else ok (frame_in_use, bitmap)

unfoldable pub unreserve : Bitmap → Frame → Outcome Bitmap
unreserve bitmap f = unreserve_impl bitmap f
