-- ===== src/FillBitmap/FromMap.antt =====
-- `fill_bitmap_from_map` as a whole: which frames are free in the bitmap that it makes.
use native.Mathlib.Nat.{zero-div}
use testos.Base.{
  ℕ, zero, suc, ◌+◌, ◌-◌, ◌*◌, ◌/◌, ◌%◌, ◌^◌, ◌≤◌, ◌<◌, ◌≡◌, refl, ◌∙◌, arith, Bool, true, false,
  ◌&&◌, some, List, [], ◌∷◌, ltb, leb, if◌then◌else◌, Outcome, ok, length, get_or, replicate,
  length-replicate, All, u64_end, sub-ok, add-ok, le→leb,
}
use testos.Extent
use testos.FrameRange.{FrameRange}
use testos.FrameRange.Valid.{IsRange}
use testos.MemoryMap.{Map, MapEntry, entries, iter_type, iter_map_frames, available}
use testos.BitmapAllocator.{Bitmap}
use testos.BitmapAllocator.Spec.{IsBytes, free}
use testos.FillBitmap.{fill_range, fill_ranges, fill_bitmap_from_map, ceil_divide, last_entry}
use testos.FillBitmap.Bytes.{Marks}
use testos.FillBitmap.Ends.{first_of, past_of, up_8, down_8}
use testos.FillBitmap.Range.{exact, whole_byte, in_first_byte, fill_range-Fills}

-- A range of frames of a bitmap of `n` bytes that has a byte boundary in it, and does not end in
-- the first byte.
abbrev pub IsFillable : ℕ → FrameRange → Type 0
IsFillable n r =
    IsRange r × (past_of r ≤ 8 * n) × (8 ≤ past_of r) × (up_8 (first_of r) ≤ down_8 (past_of r))

-- Whether frame number `j` is in one of the ranges.
abbrev pub in_some : List FrameRange → ℕ → Bool
in_some [] j = false
in_some (r ∷ rs) j = if leb (first_of r) j && ltb j (past_of r) then true else in_some rs j

-- The code returns a bitmap of the same length in which the frames of the ranges are free, and
-- the others are as they were.
pub record FillsRanges (rs : List FrameRange) (before : Bitmap) (r : Outcome Bitmap) : Type 0 where
  pub after : Bitmap
  pub returns : r ≡ ok after
  pub same_length : length after ≡ length before
  pub bytes : IsBytes after
  pub marks : (j : ℕ) → free after j ≡ (if in_some rs j then 1 else free before j)

fill_range-Marks :
    (r : FrameRange) (bitmap : Bitmap)
    → IsFillable (length bitmap) r
    → IsBytes bitmap
    → Marks (first_of r) (past_of r) bitmap (fill_range r bitmap)
fill_range-Marks r bitmap (v, inside, far, boundary) b =
    elim (fill_range-Fills r bitmap v b inside) [
      | exact _ _ m ↦ m
      | whole_byte _ gt _ ↦ absurd (omega arith)
      | in_first_byte near _ ↦ absurd (omega arith)
    ]

pub fill_ranges-Fills :
    (rs : List FrameRange) (bitmap : Bitmap)
    → All (IsFillable (length bitmap)) rs
    → IsBytes bitmap
    → FillsRanges rs bitmap (fill_ranges rs bitmap)
unfolding fill_ranges
fill_ranges-Fills [] bitmap all b = record {
  after = bitmap;
  returns = refl;
  same_length = refl;
  bytes = b;
  marks = λ j. refl;
}
fill_ranges-Fills (r ∷ rs) bitmap all b =
    let one = fill_range-Marks r bitmap all.0 b in
    let rest = fill_ranges-Fills rs one.after (rw one.same_length all.1) one.bytes in
    record {
      after = rest.after;
      returns = rw one.returns rest.returns;
      same_length = rest.same_length ∙ one.same_length;
      bytes = rest.bytes;
      marks = λ j. rest.marks j ∙ ground (arith, one.marks j);
    }

get_or-replicate : (n i : ℕ) → get_or {A = ℕ} (replicate n 0) i 0 ≡ 0
get_or-replicate zero i = refl
get_or-replicate (suc n) zero = refl
get_or-replicate (suc n) (suc i) = get_or-replicate n i

nothing_free : (n j : ℕ) → free (replicate n 0) j ≡ 0
unfolding free
nothing_free n j = rw (get_or-replicate n (j / 8), zero-div (2 ^ (j % 8)))

replicate-IsBytes : (n : ℕ) → IsBytes (replicate n 0)
replicate-IsBytes zero = tt
replicate-IsBytes (suc n) = (omega arith, replicate-IsBytes n)

ceil_divide-ok : (x : ℕ) → x + 32768 < u64_end → ceil_divide x 32768 ≡ ok ((x + 32767) / 32768)
unfolding ceil_divide
ceil_divide-ok x h =
    let e : x + 32768 - 1 ≡ x + 32767 = omega arith in
    rw (add-ok x 32768 h, sub-ok (x + 32768) 1 (omega arith), e)

-- `fill_bitmap_from_map`, with a bitmap that has a bit for every frame up to the end of the last
-- entry, which is not within 32 KiB of the end of the address space, and with available ranges that are in the bitmap, have a byte boundary in them and do not
-- end in the first byte: whatever was in the bitmap before, a frame is free after exactly if it is
-- in one of the ranges.
pub fill_bitmap_from_map_lem :
    (bitmap : Bitmap) (m : Map) (final : MapEntry) (end : ℕ) (rs : List FrameRange)
    → last_entry (entries m) ≡ some final
    → Extent.end_address final.extent ≡ ok end
    → end ≤ 32768 * length bitmap
    → end + 32768 < u64_end
    → iter_map_frames (iter_type m available) ≡ ok rs
    → All (IsFillable (length bitmap)) rs
    → (after : Bitmap) × (fill_bitmap_from_map bitmap m ≡ ok after)
      × (length after ≡ length bitmap)
      × IsBytes after
      × ((j : ℕ) → free after j ≡ (if in_some rs j then 1 else 0))
unfolding fill_bitmap_from_map
fill_bitmap_from_map_lem bitmap m final end rs e_final e_end enough small e_rs all =
    let len = length-replicate (length bitmap) 0 in
    let run =
      fill_ranges-Fills rs (replicate (length bitmap) 0) (rw len all)
        (replicate-IsBytes (length bitmap)) in
    (
      run.after,
      rw
          (
            e_final,
            e_end,
            ceil_divide-ok end small,
            le→leb ((end + 32767) / 32768) (length bitmap) (omega arith),
            e_rs,
          )
          run.returns,
      run.same_length ∙ len,
      run.bytes,
      λ j. run.marks j ∙ rw (nothing_free (length bitmap) j),
    )
