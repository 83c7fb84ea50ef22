-- ===== src/Mm/Owned.antt =====
-- An owned range of frames of src/mm.rs gives back what it took.
use testos.Base.{
  ℕ, ◌+◌, ◌-◌, ◌*◌, ◌^◌, ◌≤◌, ◌<◌, ◌≡◌, refl, subst, sym, ◌∙◌, ◌⊎◌, inl, inr, arith, Option, none,
  some, ok, panic, length,
}
use testos.Base.Bits.{pow-pos, pow_add}
use testos.FrameRange.{FrameRange, range}
use testos.BitmapAllocator.Single.{nth_frame}
use testos.BitmapAllocator
use testos.BitmapAllocator.{Bitmap}
use testos.BitmapAllocator.Spec.{IsBytes, Addressable, free, Grants, granted, refused, NoneFree}
use testos.BitmapAllocator.Small.{allocate_range-Allocates}
use testos.BitmapAllocator.Large.{allocate_range-AllocatesOrPanics}
use testos.BitmapAllocator.Release.{deallocate_range-Frees}
use testos.Mm.Frames.{
  OwnedFrameRange, owned, allocate_frames, deallocate_frames, allocate_owned_frames, drop,
}

-- The results of asking for `s` frames and dropping them: they are free again, and so is what was
-- free before; or there was no range of `s` frames, and `None` or, for 8 frames or more, a panic.
pub data Restores (order : ℕ) (before : Bitmap) : Type 0 where
  restored :
      (o : OwnedFrameRange) (during after : Bitmap)
      → allocate_owned_frames order (some before) ≡ ok (some o, some during)
      → drop o (some during) ≡ ok (some after)
      → ((j : ℕ) → free after j ≡ free before j)
      → Restores order before
  refuses :
      allocate_owned_frames order (some before) ≡ ok (none, some before)
      → NoneFree before (2 ^ order)
      → Restores order before
  panics :
      allocate_owned_frames order (some before) ≡ panic
      → 3 ≤ order
      → NoneFree before (2 ^ order)
      → Restores order before

module _ (order : ℕ) (before : Bitmap) (b : IsBytes before) (h : Addressable before) where
  owned-ok :
      (r : Option FrameRange) (during : Bitmap)
      → BitmapAllocator.allocate_range order before ≡ ok (r, during)
      → allocate_owned_frames order (some before)
        ≡ ok (elim r [ none ↦ none | some frames ↦ some (owned frames) ], some during)
  unfolding allocate_owned_frames allocate_frames
  owned-ok r during e = rw e refl

  place : (n : ℕ) → (0 * 8 + n) * 4096 ≡ n * 4096
  place n = omega arith

  drop-ok :
      (r : FrameRange) (during after : Bitmap)
      → BitmapAllocator.deallocate_range r during ≡ ok after
      → drop (owned r) (some during) ≡ ok (some after)
  unfolding drop deallocate_frames
  drop-ok r during after e = rw e refl

  granted-Restores :
      (r : Option FrameRange) (during : Bitmap)
      → BitmapAllocator.allocate_range order before ≡ ok (r, during)
      → length during ≡ length before
      → IsBytes during
      → Grants (2 ^ order) 0 before during r
      → Restores order before
  granted-Restores r during e same bytes (refused er eb gone) =
      refuses (owned-ok r during e ∙ (rw (er, eb) refl)) gone
  granted-Restores r during e same bytes (granted n er al inside was_free marks) =
      let back =
        deallocate_range-Frees n (2 ^ order) during (pow-pos order) bytes (omega (arith, same))
          (omega (arith, same)) (λ i le lt. ground (arith, marks i)) in
      restored (owned (range (nth_frame n) (2 ^ order))) during back.after
        (owned-ok r during e ∙ (rw (er, place n) refl))
        (drop-ok (range (nth_frame n) (2 ^ order)) during back.after back.returns)
        (λ j. ground (arith, back.marks j, marks j, was_free j))

large-Restores :
    (k : ℕ) (before : Bitmap)
    → k ≤ 21
    → IsBytes before
    → Addressable before
    → Restores (3 + k) before
large-Restores k before hk b h =
    let size : 8 * 2 ^ k ≡ 2 ^ (3 + k) = sym (pow_add 3 k) in
    elim (allocate_range-AllocatesOrPanics k before hk b h) [
      | inl (a, _) ↦
          granted-Restores (3 + k) before b h a.result a.after a.returns a.same_length a.bytes
            (subst (λ s. Grants s 0 before a.after a.result) size a.grants)
      | inr (fails, gone, _) ↦
          panics (allocate-panic (3 + k) before fails) (omega arith)
            (subst (NoneFree before) size gone)
    ]
  where
    allocate-panic :
        (order : ℕ) (bitmap : Bitmap)
        → BitmapAllocator.allocate_range order bitmap ≡ panic
        → allocate_owned_frames order (some bitmap) ≡ panic
    allocate-panic order bitmap e =
        unfold allocate_owned_frames in unfold allocate_frames in rw e refl

-- From a bitmap of bytes whose frames all have addresses, asking for `2 ^ order` owned frames and
-- dropping them gives every frame back as it was. Otherwise no aligned range is free: then the
-- answer is `None` and nothing has changed, or, from order 3 on, the code may panic. This excludes
-- order 2.
pub allocate_owned_frames-drop :
    (order : ℕ) (before : Bitmap)
    → (order < 2) ⊎ ((3 ≤ order) × (order ≤ 24))
    → IsBytes before
    → Addressable before
    → Restores order before
allocate_owned_frames-drop order before (inl small) b h =
    let a = allocate_range-Allocates order before small b h in
    granted-Restores order before b h a.result a.after a.returns a.same_length a.bytes a.grants
allocate_owned_frames-drop order before (inr large) b h =
    let whole : 3 + (order - 3) ≡ order = omega (arith, large.0) in
    subst (λ o. Restores o before) whole
      (large-Restores (order - 3) before (omega (arith, large.1)) b h)
