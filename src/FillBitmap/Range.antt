-- ===== src/FillBitmap/Range.antt =====
-- What the body of the loop of `fill_bitmap_from_map` does to the bitmap, for one range of frames.
use testos.Base.{
  ℕ, ◌+◌, ◌-◌, ◌*◌, ◌/◌, ◌≤◌, ◌<◌, ◌≡◌, ◌∙◌, arith, Bool, true, ◌&&◌, ltb, leb, if◌then◌else◌,
  Outcome, ok, panic, ◌>>=◌, length, add-ok, mul-ok, u64_end, le→leb, le_or_lt, inl, inr,
}
use testos.Frame
use testos.Frame.{Frame, frame}
use testos.FrameRange.{FrameRange}
use testos.FrameRange.Valid.{IsRange, last-ok}
use testos.BitmapAllocator.{Bitmap, rounds_of}
use testos.BitmapAllocator.Spec.{IsBytes, free}
use testos.FillBitmap.{fill_range, fill_bytes, fill_leading, fill_trailing}
use testos.FillBitmap.Bytes.{Marks, fill_bytes-Marks}
use testos.FillBitmap.Ends.{
  first_of, past_of, up_8, down_8, next_multiple_of_8-ok, leading-Marks, trailing-Marks,
  trailing-panic,
}

-- The body once its numbers are known.
abbrev fill_parts : ℕ → ℕ → Bitmap → Outcome Bitmap
fill_parts first end bitmap = do
  whole ← fill_bytes (rounds_of (down_8 end - up_8 first) 8) (up_8 first / 8) bitmap
  leading ← fill_leading first (up_8 first) whole
  fill_trailing end (down_8 end) leading

fill_range-run :
    (r : FrameRange) (bitmap : Bitmap)
    → IsRange r
    → past_of r ≤ 8 * length bitmap
    → fill_range r bitmap ≡ fill_parts (first_of r) (past_of r) bitmap
unfolding fill_range Frame.index
fill_range-run r bitmap v h = rw (
  le→leb (r.count / 8) (length bitmap) (omega arith),
  last-ok r v,
  past,
  add-ok (past_of r - 1) 1 (omega arith),
  past_suc,
  next_multiple_of_8-ok (first_of r) (omega arith),
  mul-ok (past_of r / 8) 8 (omega arith),
)
  where
    past : (r.first.start + (r.count - 1) * 4096) / 4096 ≡ past_of r - 1
    past = omega arith

    past_suc : past_of r - 1 + 1 ≡ past_of r
    past_suc = omega arith

-- The frames that the three parts mark together.
abbrev in_parts : ℕ → ℕ → ℕ → Bool
in_parts first end j =
    if leb first j && ltb j (up_8 first)
    then true
    else if leb (down_8 end) j && ltb j end
    then true
    else leb (up_8 first) j && ltb j (down_8 end)

record MarksParts (first end : ℕ) (before : Bitmap) (r : Outcome Bitmap) : Type 0 where
  after : Bitmap
  returns : r ≡ ok after
  same_length : length after ≡ length before
  bytes : IsBytes after
  marks : (j : ℕ) → free after j ≡ (if in_parts first end j then 1 else free before j)

fill_parts-Marks :
    (first end : ℕ) (bitmap : Bitmap)
    → first < end
    → 8 ≤ end
    → end ≤ 8 * length bitmap
    → end < u64_end
    → IsBytes bitmap
    → MarksParts first end bitmap (fill_parts first end bitmap)
fill_parts-Marks first end bitmap lt far h small b =
    let n = rounds_of (down_8 end - up_8 first) 8 in
    let whole = fill_bytes-Marks n (up_8 first / 8) bitmap (omega arith) b in
    let leading = leading-Marks first whole.after (omega (arith, whole.same_length)) whole.bytes in
    let trailing =
      trailing-Marks end leading.after far (omega (arith, whole.same_length, leading.same_length))
        small leading.bytes in
    record {
      after = trailing.after;
      returns = rw (whole.returns, leading.returns) trailing.returns;
      same_length = trailing.same_length ∙ leading.same_length ∙ whole.same_length;
      bytes = trailing.bytes;
      marks = λ j. ground (arith, trailing.marks j, leading.marks j, whole.marks j);
    }

-- What the loop's body does for one range.
pub data Fills (r : FrameRange) (bitmap : Bitmap) (res : Outcome Bitmap) : Type 0 where
  exact :
      8 ≤ past_of r
      → up_8 (first_of r) ≤ down_8 (past_of r)
      → Marks (first_of r) (past_of r) bitmap res
      → Fills r bitmap res
  whole_byte :
      8 ≤ past_of r
      → down_8 (past_of r) < up_8 (first_of r)
      → Marks (down_8 (past_of r)) (down_8 (past_of r) + 8) bitmap res
      → Fills r bitmap res
  in_first_byte : past_of r < 8 → res ≡ panic → Fills r bitmap res

to_exact :
    (first end : ℕ) (bitmap : Bitmap) (res : Outcome Bitmap)
    → first < end
    → up_8 first ≤ down_8 end
    → MarksParts first end bitmap res
    → Marks first end bitmap res
to_exact first end bitmap res lt le m = record {
  after = m.after;
  returns = m.returns;
  same_length = m.same_length;
  bytes = m.bytes;
  marks = λ j. m.marks j ∙ ground arith;
}

to_whole_byte :
    (first end : ℕ) (bitmap : Bitmap) (res : Outcome Bitmap)
    → first < end
    → down_8 end < up_8 first
    → MarksParts first end bitmap res
    → Marks (down_8 end) (down_8 end + 8) bitmap res
to_whole_byte first end bitmap res lt le m = record {
  after = m.after;
  returns = m.returns;
  same_length = m.same_length;
  bytes = m.bytes;
  marks = λ j. m.marks j ∙ ground arith;
}

fill_parts-panic :
    (first end : ℕ) (bitmap : Bitmap)
    → first < end
    → end < 8
    → end ≤ 8 * length bitmap
    → IsBytes bitmap
    → fill_parts first end bitmap ≡ panic
fill_parts-panic first end bitmap lt near h b =
    let n = rounds_of (down_8 end - up_8 first) 8 in
    let whole = fill_bytes-Marks n (up_8 first / 8) bitmap (omega arith) b in
    let leading = leading-Marks first whole.after (omega (arith, whole.same_length)) whole.bytes in
    rw (whole.returns, leading.returns) (trailing-panic end leading.after (omega arith) near)

-- One range of frames that the bitmap has bits for: its frames become free and no others, if a
-- byte boundary lies in it, its ends included. A range strictly inside a byte marks that whole
-- byte free. A range that ends in the first byte panics.
pub fill_range-Fills :
    (r : FrameRange) (bitmap : Bitmap)
    → IsRange r
    → IsBytes bitmap
    → past_of r ≤ 8 * length bitmap
    → Fills r bitmap (fill_range r bitmap)
fill_range-Fills r bitmap v b h = rw (fill_range-run r bitmap v h) (elim (le_or_lt 8 (past_of r)) [
  | inr near ↦
      in_first_byte near (fill_parts-panic (first_of r) (past_of r) bitmap (omega arith) near h b)
  | inl far ↦
      let m =
        fill_parts-Marks (first_of r) (past_of r) bitmap (omega arith) far h (omega arith) b in
      elim (le_or_lt (up_8 (first_of r)) (down_8 (past_of r))) [
        | inl le ↦ exact far le (to_exact _ _ bitmap _ (omega arith) le m)
        | inr gt ↦ whole_byte far gt (to_whole_byte _ _ bitmap _ (omega arith) gt m)
      ]
])
