-- ===== src/BitmapAllocator/Release.antt =====
-- `deallocate_range` of the bitmap allocator, in shared/src/memory/alloc/phys.rs.
use testos.Base.{
  ℕ, zero, suc, ◌+◌, ◌*◌, ◌≤◌, ◌<◌, ◌≡◌, refl, ap, ◌∙◌, inl, inr, arith, ◌&&◌, ltb, leb,
  if◌then◌else◌, Outcome, ok, length,
}
use testos.Frame.{frame}
use testos.FrameRange.{range}
use testos.FrameRange.Iter.{frames_from, iter-eq-frames_from}
use testos.BitmapAllocator.{Bitmap, deallocate_frames, deallocate_range}
use testos.BitmapAllocator.Spec.{IsBytes, Addressable, free}
use testos.BitmapAllocator.Single.{nth_frame, deallocate_lem}

-- The result of freeing the `s` frames from number `n` on.
pub record Frees (n s : ℕ) (before : Bitmap) (r : Outcome Bitmap) : Type 0 where
  pub after : Bitmap
  pub returns : r ≡ ok after
  pub same_length : length after ≡ length before
  pub bytes : IsBytes after
  pub marks : (j : ℕ) → free after j ≡ (if leb n j && ltb j (n + s) then 1 else free before j)

abbrev pub AllUsed : Bitmap → ℕ → ℕ → Type 0
AllUsed bitmap n s = (i : ℕ) → n ≤ i → i < n + s → free bitmap i ≡ 0

pub deallocate_frames-Frees :
    (s n : ℕ) (bitmap : Bitmap)
    → IsBytes bitmap
    → n + s ≤ 8 * length bitmap
    → AllUsed bitmap n s
    → Frees n s bitmap (deallocate_frames (frames_from s (nth_frame n)) bitmap)
unfolding deallocate_frames
deallocate_frames-Frees zero n bitmap b h used = record {
  after = bitmap;
  returns = refl;
  same_length = refl;
  bytes = b;
  marks = λ j. ground arith;
}
deallocate_frames-Frees (suc s) n bitmap b h used =
    elim (deallocate_lem bitmap n b (omega arith)).1 [
      | inl (is_free, _) ↦ absurd (omega (arith, used n (omega arith) (omega arith)))
      | inr (_, first) ↦
          let rest =
            deallocate_frames-Frees s (n + 1) first.0 (first.2).1 (omega (arith, (first.2).0))
              (λ i le lt. ground (arith, (first.2).2 i, used i (omega arith) (omega arith))) in
          record {
            after = rest.after;
            returns = rw first.1 (
                ap (λ f. deallocate_frames (frames_from s (frame f)) first.0) (next_start n)
                ∙ rest.returns);
            same_length = rest.same_length ∙ (first.2).0;
            bytes = rest.bytes;
            marks = λ j. ground (arith, rest.marks j, (first.2).2 j);
          }
    ]
  where
    next_start : (n : ℕ) → n * 4096 + 4096 ≡ (n + 1) * 4096
    next_start n = omega arith

-- `deallocate_range` of frames of the bitmap that are all in use frees these frames and no others.
pub deallocate_range-Frees :
    (n s : ℕ) (bitmap : Bitmap)
    → 0 < s
    → IsBytes bitmap
    → Addressable bitmap
    → n + s ≤ 8 * length bitmap
    → AllUsed bitmap n s
    → Frees n s bitmap (deallocate_range (range (nth_frame n) s) bitmap)
unfolding deallocate_range
deallocate_range-Frees n s bitmap pos b a h used =
    rw
      (iter-eq-frames_from (range (nth_frame n) s)
        (record { aligned = omega arith; nonempty = pos; fits = omega arith }))
      (deallocate_frames-Frees s n bitmap b h used)
