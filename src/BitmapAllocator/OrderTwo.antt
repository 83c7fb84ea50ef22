-- ===== src/BitmapAllocator/OrderTwo.antt =====
-- `allocate_range` for four frames, for which the mask of `find_bit_group` has three bits only.
use testos.Base.{
  ℕ, ◌-◌, ◌%◌, ◌<◌, ◌≡◌, refl, arith, Bool, true, false, Option, none, some, ◌∷◌, ◌==◌, ==_iff,
  if◌then◌else◌, Outcome, ok, panic, bit_and,
}
use testos.Base.Tables.{all_below, all_below_sound}
use testos.Frame.{frame}
use testos.FrameRange
use testos.FrameRange.{FrameRange, range}
use testos.FrameRange.Valid
use testos.BitmapAllocator.{Bitmap, allocate_bits, allocate_range, shl_u8, u8_max}
use testos.BitmapAllocator.BitGroup.{find_from, find_bit_group}
use testos.BitmapAllocator.Spec.{free, offsets_to_frame-ok}

abbrev found_at_0 : Outcome (Option ℕ) → Bool
found_at_0 panic = false
found_at_0 (ok none) = false
found_at_0 (ok (some k)) = k == 0

found_at_0_sound : (r : Outcome (Option ℕ)) → found_at_0 r ≡ true → r ≡ ok (some 0)
found_at_0_sound panic h = absurd (cc)
found_at_0_sound (ok none) h = absurd (cc)
found_at_0_sound (ok (some k)) h = let e : k ≡ 0 = (==_iff k 0).0 h in rw e

three_bits_table :
    all_below 256 (λ b. if b % 16 == 7 then found_at_0 (find_bit_group b 4) else true) ≡ true
unfolding all_below find_bit_group find_from
three_bits_table = refl

three_bits : (b : ℕ) → b < 256 → b % 16 ≡ 7 → find_bit_group b 4 ≡ ok (some 0)
three_bits b hb h =
    let at =
      all_below_sound 256 (λ b. if b % 16 == 7 then found_at_0 (find_bit_group b 4) else true) b
        three_bits_table hb in
    found_at_0_sound _ (ground arith)

-- With the first three frames free and the fourth in use, whatever the rest of the bitmap is,
-- `allocate_range` for four frames gives the first four: among them one that is in use.
pub allocate_range-in_use :
    (b : ℕ) (bitmap : Bitmap)
    → b < 256
    → b % 16 ≡ 7
    → (free (b ∷ bitmap) 3 ≡ 0)
      × ((after : Bitmap) × (allocate_range 2 (b ∷ bitmap) ≡ ok (some (range (frame 0) 4), after)))
unfolding allocate_range allocate_bits free
allocate_range-in_use b bitmap hb h = (
  omega arith,
  (
    bit_and b (u8_max - shl_u8 15 0) ∷ bitmap,
    let nonzero : (b == 0) ≡ false = ground arith in
        rw (nonzero, three_bits b hb h, offsets_to_frame-ok 0 0 (omega arith) (omega arith))
          (rw (FrameRange.Valid.new-ok (frame 0) 4 (omega arith))),
  ),
)
