-- ===== src/FillBitmap/Ends.antt =====
-- The frames before the first and after the last whole byte of a range.
use testos.Base.{
  ℕ, ◌+◌, ◌-◌, ◌*◌, ◌/◌, ◌%◌, ◌≤◌, ◌<◌, ◌≡◌, refl, arith, true, false, ltb, ◌==◌, ok, panic, length,
  sub-ok, add-ok, u64_end, le_or_lt, inl, inr,
}
use testos.FrameRange.{FrameRange}
use testos.BitmapAllocator.{Bitmap}
use testos.BitmapAllocator.Spec.{IsBytes}
use testos.FillBitmap.{fill_leading, fill_trailing, next_multiple_of_8}
use testos.FillBitmap.Bytes.{Marks, or_most-Marks, or_least-Marks}

-- The number of the first frame of a range, and of the frame past its last.
abbrev pub first_of : FrameRange → ℕ
first_of r = r.first.start / 4096

abbrev pub past_of : FrameRange → ℕ
past_of r = first_of r + r.count

-- Multiples of 8.
abbrev pub up_8 : ℕ → ℕ
up_8 x = (x + 7) / 8 * 8

abbrev pub down_8 : ℕ → ℕ
down_8 x = x / 8 * 8

pub next_multiple_of_8-ok : (x : ℕ) → x + 7 < u64_end → next_multiple_of_8 x ≡ ok (up_8 x)
next_multiple_of_8-ok x h = ground (arith, add-ok x (8 - x % 8))

pub Marks-nothing :
    (lo hi : ℕ) (bitmap : Bitmap) → hi ≤ lo → IsBytes bitmap → Marks lo hi bitmap (ok bitmap)
Marks-nothing lo hi bitmap h b = record {
  after = bitmap;
  returns = refl;
  same_length = refl;
  bytes = b;
  marks = λ j. ground arith;
}

pub leading-Marks :
    (first : ℕ) (bitmap : Bitmap)
    → first < 8 * length bitmap
    → IsBytes bitmap
    → Marks first (up_8 first) bitmap (fill_leading first (up_8 first) bitmap)
unfolding fill_leading
leading-Marks first bitmap h b = elim (le_or_lt (up_8 first) first) [
  | inl whole ↦
      let e : (first == up_8 first) ≡ true = ground arith in
      rw e (Marks-nothing first (up_8 first) bitmap whole b)
  | inr part ↦
      let e : (first == up_8 first) ≡ false = ground arith in
      let byte : up_8 first / 8 - 1 ≡ first / 8 = omega arith in
      let same : (first / 8 == first / 8) ≡ true = ground arith in
      let small : ltb (up_8 first - first) 256 ≡ true = ground arith in
      let lo : 8 * (first / 8) + (8 - (up_8 first - first)) ≡ first = omega arith in
      let hi : 8 * (first / 8) + 8 ≡ up_8 first = omega arith in
      rw
        (
          e,
          sub-ok (up_8 first / 8) 1 (omega arith),
          byte,
          same,
          sub-ok (up_8 first) first (omega arith),
          small,
        )
        (rw (lo, hi) at
          (or_most-Marks (first / 8) (up_8 first - first) bitmap (omega arith) (omega arith) b))
]

pub trailing-Marks :
    (end : ℕ) (bitmap : Bitmap)
    → 8 ≤ end
    → end ≤ 8 * length bitmap
    → end < u64_end
    → IsBytes bitmap
    → Marks (down_8 end) end bitmap (fill_trailing end (down_8 end) bitmap)
unfolding fill_trailing
trailing-Marks end bitmap far h small_end b = elim (le_or_lt end (down_8 end)) [
  | inl whole ↦
      let e : (end == down_8 end) ≡ true = ground arith in
      rw e (Marks-nothing (down_8 end) end bitmap whole b)
  | inr part ↦
      let e : (end == down_8 end) ≡ false = ground arith in
      let byte : (down_8 end - 1) / 8 + 1 ≡ end / 8 = omega arith in
      let same : (end / 8 == end / 8) ≡ true = ground arith in
      let small : ltb (end - down_8 end) 256 ≡ true = ground arith in
      let lo : 8 * (end / 8) ≡ down_8 end = omega arith in
      let hi : 8 * (end / 8) + (end - down_8 end) ≡ end = omega arith in
      rw
        (
          e,
          sub-ok (down_8 end) 1 (omega arith),
          add-ok ((down_8 end - 1) / 8) 1 (omega arith),
          byte,
          same,
          sub-ok end (down_8 end) (omega arith),
          small,
        )
        (rw (hi, lo) at
          (or_least-Marks (end / 8) (end - down_8 end) bitmap (omega arith) (omega arith) b))
]

-- A range that ends in the first byte has no byte before its last one, and the subtraction of 1
-- from its number overflows.
pub trailing-panic :
    (end : ℕ) (bitmap : Bitmap) → 0 < end → end < 8 → fill_trailing end (down_8 end) bitmap ≡ panic
unfolding fill_trailing
trailing-panic end bitmap pos h =
    let e : (end == down_8 end) ≡ false = ground arith in
    let zero_end : down_8 end ≡ 0 = omega arith in rw (e, zero_end)
