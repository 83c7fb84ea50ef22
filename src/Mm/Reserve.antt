-- ===== src/Mm/Reserve.antt =====
-- The reservation of memory at the end of `init` in src/mm.rs.
use testos.Base.{
  ℕ, zero, suc, ◌+◌, ◌-◌, ◌*◌, ◌≤◌, ◌<◌, ◌≡◌, refl, subst, bind_assoc, sym, ap, ◌∙◌, inl, inr,
  arith, ◌&&◌, ◌||◌, Bool, false, List, [], ◌∷◌, ltb, leb, ◌==◌, if◌then◌else◌, Outcome, ok, ◌>>=◌,
  All, length,
}
use testos.Extent.{Extent}
use testos.Extent.Valid.{IsExtent, end_of}
use testos.Frame.{frame}
use testos.FrameRange.{range}
use testos.FrameRange.Iter.{frames_from, iter-eq-frames_from}
use testos.FrameRange.Covering.{first_frame, last_frame, containing_extent-ok}
use testos.BitmapAllocator.{Bitmap, ReserveResult, reserve}
use testos.BitmapAllocator.Spec.{IsBytes, free}
use testos.BitmapAllocator.Single.{nth_frame, reserve_lem}
use testos.Mm.Init.{reserve_frames, reserve_extent, reserve_extents}

-- The result of reserving the frames whose numbers the test picks out.
pub record Reserved (taken : ℕ → Bool) (before : Bitmap) (r : Outcome Bitmap) : Type 0 where
  pub after : Bitmap
  pub returns : r ≡ ok after
  pub same_length : length after ≡ length before
  pub bytes : IsBytes after
  pub marks : (j : ℕ) → free after j ≡ (if taken j then 0 else free before j)

one-Reserved :
    (n : ℕ) (bitmap : Bitmap)
    → IsBytes bitmap
    → n < 8 * length bitmap
    → Reserved (λ j. j == n) bitmap (reserve bitmap (nth_frame n) >>= λ (_, after). ok after)
one-Reserved n bitmap b h = elim (reserve_lem bitmap n b h) [
  | inl (_, (after, e, (same, bytes, marks))) ↦ record {
    after = after;
    returns = rw e refl;
    same_length = same;
    bytes = bytes;
    marks = marks;
  }
  | inr (used, e) ↦ record {
    after = bitmap;
    returns = rw e refl;
    same_length = refl;
    bytes = b;
    marks = λ j. ground arith;
  }
]

-- One reservation and then others.
then-Reserved :
    (t u : ℕ → Bool) (bitmap : Bitmap) (m : Outcome Bitmap) (k : Bitmap → Outcome Bitmap)
    → Reserved t bitmap m
    → ((b : Bitmap) → length b ≡ length bitmap → IsBytes b → Reserved u b (k b))
    → Reserved (λ j. t j || u j) bitmap (m >>= k)
then-Reserved t u bitmap m k first next =
    let second = next first.after first.same_length first.bytes in
    record {
      after = second.after;
      returns = rw (first.returns, second.returns) refl;
      same_length = second.same_length ∙ first.same_length;
      bytes = second.bytes;
      marks = λ j. ground (arith, second.marks j, first.marks j);
    }

Reserved-same :
    (t u : ℕ → Bool) (bitmap : Bitmap) (r : Outcome Bitmap)
    → ((j : ℕ) → t j ≡ u j)
    → Reserved t bitmap r
    → Reserved u bitmap r
Reserved-same t u bitmap r same done = record {
  after = done.after;
  returns = done.returns;
  same_length = done.same_length;
  bytes = done.bytes;
  marks = λ j. done.marks j ∙ ap (λ b. if b then 0 else free bitmap j) (same j);
}

nothing-Reserved : (bitmap : Bitmap) → IsBytes bitmap → Reserved (λ j. false) bitmap (ok bitmap)
nothing-Reserved bitmap b = record {
  after = bitmap;
  returns = refl;
  same_length = refl;
  bytes = b;
  marks = λ j. refl;
}

reserve_frames-Reserved :
    (s n : ℕ) (bitmap : Bitmap)
    → IsBytes bitmap
    → n + s ≤ 8 * length bitmap
    → Reserved
        (λ j. leb n j && ltb j (n + s))
        bitmap
        (reserve_frames (frames_from s (nth_frame n)) bitmap)
unfolding reserve_frames
reserve_frames-Reserved zero n bitmap b h =
    Reserved-same (λ j. false) (λ j. leb n j && ltb j (n + 0)) bitmap (ok bitmap)
      (λ j. ground arith) (nothing-Reserved bitmap b)
reserve_frames-Reserved (suc s) n bitmap b h =
    let rest = λ (c : Bitmap). reserve_frames (frames_from s (frame (n * 4096 + 4096))) c in
    let step = λ (x : ReserveResult × Bitmap). ok x.1 in
    subst (Reserved (λ j. leb n j && ltb j (n + suc s)) bitmap)
      (bind_assoc (reserve bitmap (nth_frame n)) step rest)
      (Reserved-same (λ j. (j == n) || (leb (n + 1) j && ltb j (n + 1 + s)))
        (λ j. leb n j && ltb j (n + suc s)) bitmap (reserve bitmap (nth_frame n) >>= step >>= rest)
        (λ j. ground arith)
        (then-Reserved (λ j. j == n) (λ j. leb (n + 1) j && ltb j (n + 1 + s)) bitmap
          (reserve bitmap (nth_frame n) >>= step) rest (one-Reserved n bitmap b (omega arith))
          (λ c same bytes.
            subst
              (λ t.
                Reserved (λ j. leb (n + 1) j && ltb j (n + 1 + s)) c
                  (reserve_frames (frames_from s (frame t)) c))
              (next_start n) (reserve_frames-Reserved s (n + 1) c bytes (omega (arith, same))))))
  where
    next_start : (n : ℕ) → (n + 1) * 4096 ≡ n * 4096 + 4096
    next_start n = omega arith

-- The frames that hold an address of the extent.
abbrev pub in_frames : Extent → ℕ → Bool
in_frames e j = leb (first_frame e) j && leb j (last_frame e)

abbrev pub in_any : List Extent → ℕ → Bool
in_any [] j = false
in_any (e ∷ es) j = in_frames e j || in_any es j

-- An extent within the frames of a bitmap of `n` bytes.
pub record IsReservable (n : ℕ) (e : Extent) : Type 0 where
  pub valid : IsExtent e
  pub inside : end_of e ≤ 8 * n * 4096

reserve_extent-Reserved :
    (e : Extent) (bitmap : Bitmap)
    → IsBytes bitmap
    → IsReservable (length bitmap) e
    → Reserved (in_frames e) bitmap (reserve_extent e bitmap)
unfolding reserve_extent
reserve_extent-Reserved e bitmap b h =
    let count = last_frame e - first_frame e + 1 in
    let whole = iter-eq-frames_from (range (nth_frame (first_frame e)) count) (record {
      aligned = omega arith;
      nonempty = omega arith;
      fits = omega (arith, h.valid.nonempty, h.valid.fits);
    }) in
    rw (containing_extent-ok e h.valid, whole)
      (Reserved-same (λ j. leb (first_frame e) j && ltb j (first_frame e + count)) (in_frames e)
        bitmap (reserve_frames (frames_from count (nth_frame (first_frame e))) bitmap)
        (λ j. ground (arith, h.valid.nonempty))
        (reserve_frames-Reserved count (first_frame e) bitmap b
          (omega (arith, h.inside, h.valid.nonempty))))

-- From a bitmap of bytes that has a bit for every frame of the extents, the loop returns, and then all
-- frames that hold an address of one of the extents are in use, and the others are as they were.
pub reserve_extents-Reserved :
    (es : List Extent) (bitmap : Bitmap)
    → IsBytes bitmap
    → All (IsReservable (length bitmap)) es
    → Reserved (in_any es) bitmap (reserve_extents es bitmap)
unfolding reserve_extents
reserve_extents-Reserved [] bitmap b h = nothing-Reserved bitmap b
reserve_extents-Reserved (e ∷ es) bitmap b h =
    then-Reserved (in_frames e) (in_any es) bitmap (reserve_extent e bitmap) (reserve_extents es)
      (reserve_extent-Reserved e bitmap b h.0)
      (λ c same bytes.
        reserve_extents-Reserved es c bytes (subst (λ n. All (IsReservable n) es) (sym same) h.1))
