-- ===== src/FillBitmap/Available.antt =====
-- Which frames `fill_bitmap_from_map` of shared/src/memory/alloc/phys.rs frees, by the addresses of the
-- entries of the memory map.
use testos.Base.{
  ℕ, ◌+◌, ◌-◌, ◌*◌, ◌/◌, ◌≤◌, ◌<◌, ◌≡◌, refl, ap, ◌∙◌, arith, Bool, true, false, ◌&&◌, Option, none,
  some, List, [], ◌∷◌, ltb, leb, if◌then◌else◌, ok, or_return, ◌>>=◌, length, All, u64_end,
  Bool-cases, inl, inr, le_or_lt, lt→ltb, le→not-ltb,
}
use testos.Extent
use testos.Extent.{Extent, extent}
use testos.Extent.Valid.{IsExtent, end_of}
use testos.Extent.Aligned.{shrunk, shrink_to_alignment-eq-shrunk}
use testos.Frame.{frame}
use testos.FrameRange
use testos.FrameRange.{FrameRange, range}
use testos.FrameRange.Covering.{containing_extent-ok}
use testos.MemoryMap.{
  Map, MapEntry, MemoryType, available, acpi, reserved_preserve_on_hibernation, defective, reserved,
  kernel_load, same_type, entries, of_type, iter_type, entry_frames, iter_map_frames,
}
use testos.BitmapAllocator.{Bitmap}
use testos.BitmapAllocator.Spec.{IsBytes, free}
use testos.FillBitmap.{fill_bitmap_from_map, last_entry}
use testos.FillBitmap.Ends.{first_of, past_of, up_8, down_8}
use testos.FillBitmap.FromMap.{IsFillable, in_some, fill_bitmap_from_map_lem}

-- The first frame that starts in an extent or after it, and the one that its end lies in: the frames
-- between them are those that lie whole inside.
abbrev pub whole_from : Extent → ℕ
whole_from e = (e.address + 4095) / 4096

abbrev pub whole_to : Extent → ℕ
whole_to e = end_of e / 4096

abbrev whole_range : Extent → FrameRange
whole_range e = range (frame (whole_from e * 4096)) (whole_to e - whole_from e)

abbrev whole_frames : Extent → Option FrameRange
whole_frames e = if ltb (whole_from e) (whole_to e) then some (whole_range e) else none

shrunk-none :
    (e : Extent) → whole_to e ≤ whole_from e → (shrunk 12 e ≡ none) × (whole_frames e ≡ none)
shrunk-none e h = (
  rw (le→not-ltb (whole_from e * 4096) (whole_to e * 4096) (omega arith)) refl,
  rw (le→not-ltb (whole_from e) (whole_to e) h) refl,
)

shrunk-some :
    (e : Extent)
    → whole_from e < whole_to e
    → (shrunk 12 e ≡ some (extent (whole_from e * 4096) (whole_to e * 4096 - whole_from e * 4096)))
      × (whole_frames e ≡ some (whole_range e))
shrunk-some e h = (
  rw (lt→ltb (whole_from e * 4096) (whole_to e * 4096) (omega arith)) refl,
  rw (lt→ltb (whole_from e) (whole_to e) h) refl,
)

covering :
    (p q : ℕ)
    → p < q
    → q * 4096 < u64_end
    → FrameRange.containing_extent (extent (p * 4096) (q * 4096 - p * 4096))
      ≡ ok (range (frame (p * 4096)) (q - p))
covering p q h fits =
    let first : p * 4096 / 4096 ≡ p = omega arith in
    let last : (p * 4096 + (q * 4096 - p * 4096) - 1) / 4096 ≡ q - 1 = omega arith in
    let count : q - 1 - p + 1 ≡ q - p = omega arith in
    containing_extent-ok (extent (p * 4096) (q * 4096 - p * 4096))
      (record { nonempty = omega arith; fits = omega arith })
    ∙ rw (first, last, count) refl

entry_frames-ok :
    (e : MapEntry)
    → IsExtent e.extent
    → e.extent.address + 4095 < u64_end
    → entry_frames e ≡ ok (whole_frames e.extent)
unfolding entry_frames
entry_frames-ok e v h =
    rw (shrink_to_alignment-eq-shrunk 12 e.extent (omega arith) v h)
      (elim (le_or_lt (whole_to e.extent) (whole_from e.extent))
        as (λ _.
          or_return (shrunk 12 e.extent) (λ a. FrameRange.containing_extent a >>= λ r. ok (some r))
          ≡ ok (whole_frames e.extent)) [
            | inl none_whole ↦ let (a, b) = shrunk-none e.extent none_whole in rw (a, b) refl
            | inr some_whole ↦
                let (a, b) = shrunk-some e.extent some_whole in
                rw
                  (
                    a,
                    b,
                    covering (whole_from e.extent) (whole_to e.extent) some_whole (omega arith),
                  )
                  refl
          ])

-- Available memory, by its type.
abbrev pub is_available : MemoryType → Bool
is_available available = true
is_available acpi = false
is_available reserved_preserve_on_hibernation = false
is_available defective = false
is_available reserved = false
is_available kernel_load = false

same_type-available : (t : MemoryType) → same_type t available ≡ is_available t
same_type-available available = refl
same_type-available acpi = refl
same_type-available reserved_preserve_on_hibernation = refl
same_type-available defective = refl
same_type-available reserved = refl
same_type-available kernel_load = refl

-- Whether frame number `j` lies whole in the extent.
abbrev pub holds_frame : Extent → ℕ → Bool
holds_frame e j = leb e.address (j * 4096) && leb (j * 4096 + 4096) (end_of e)

-- Whether it lies whole in one of the available entries.
abbrev pub in_available : List MapEntry → ℕ → Bool
in_available [] j = false
in_available (e ∷ es) j =
    if is_available e.mem_type && holds_frame e.extent j then true else in_available es j

holds-none : (e : Extent) (j : ℕ) → whole_to e ≤ whole_from e → holds_frame e j ≡ false
holds-none e j h = ground arith

holds-some :
    (e : Extent) (j : ℕ)
    → whole_from e < whole_to e
    → (leb (first_of (whole_range e)) j && ltb j (past_of (whole_range e))) ≡ holds_frame e j
holds-some e j h = ground arith

-- An extent whose whole frames, if it has any, are in a bitmap of `n` bytes, have a byte boundary in them
-- and do not end in the first byte.
pub record IsFitting (n : ℕ) (e : Extent) : Type 0 where
  pub valid : IsExtent e
  pub rounds : e.address + 4095 < u64_end
  pub fillable :
      whole_from e < whole_to e
      → (whole_to e ≤ 8 * n) × (8 ≤ whole_to e) × (up_8 (whole_from e) ≤ down_8 (whole_to e))

whole_range-IsFillable :
    (n : ℕ) (e : Extent) → IsFitting n e → whole_from e < whole_to e → IsFillable n (whole_range e)
whole_range-IsFillable n e fit full =
    let (inside, far, boundary) = fit.fillable full in
    let v = fit.valid in
    let from : first_of (whole_range e) ≡ whole_from e = omega arith in
    let to : past_of (whole_range e) ≡ whole_to e = omega arith in
    let whole : whole_from e + (whole_to e - whole_from e) ≡ whole_to e = omega arith in
    (
      record { aligned = omega arith; nonempty = omega arith; fits = omega arith },
      rw to inside,
      rw to far,
      rw (from, whole) boundary,
    )

-- The ranges that are made of the available entries.
pub record AreRanges (n : ℕ) (es : List MapEntry) : Type 0 where
  pub ranges : List FrameRange
  pub run : iter_map_frames (of_type available es) ≡ ok ranges
  pub all : All (IsFillable n) ranges
  pub same : (j : ℕ) → in_some ranges j ≡ in_available es j

available_ranges :
    (n : ℕ) (es : List MapEntry)
    → All (λ e. is_available e.mem_type ≡ true → IsFitting n e.extent) es
    → AreRanges n es
unfolding iter_map_frames of_type
available_ranges n [] h = record { ranges = []; run = refl; all = tt; same = λ j. refl }
available_ranges n (e ∷ es) h =
    let rest = available_ranges n es h.1 in
    elim (Bool-cases (is_available e.mem_type)) [
      | inr other ↦ record {
        ranges = rest.ranges;
        run = rw (same_type-available e.mem_type, other) rest.run;
        all = rest.all;
        same = λ j. rw other (rest.same j);
      }
      | inl mine ↦
          let fit = h.0 mine in
          let one = entry_frames-ok e fit.valid fit.rounds in
          elim (le_or_lt (whole_to e.extent) (whole_from e.extent)) [
            | inl empty ↦ record {
              ranges = rest.ranges;
              run =
                  rw
                    (
                      same_type-available e.mem_type,
                      mine,
                      one,
                      (shrunk-none e.extent empty).1,
                      rest.run,
                    )
                    refl;
              all = rest.all;
              same = λ j. rw (mine, holds-none e.extent j empty) (rest.same j);
            }
            | inr full ↦ record {
              ranges = whole_range e.extent ∷ rest.ranges;
              run =
                  rw
                    (
                      same_type-available e.mem_type,
                      mine,
                      one,
                      (shrunk-some e.extent full).1,
                      rest.run,
                    )
                    refl;
              all = (whole_range-IsFillable n e.extent fit full, rest.all);
              same = λ j. rw (mine, holds-some e.extent j full, rest.same j) refl;
            }
          ]
    ]

-- `fill_bitmap_from_map`, with a bitmap that has a bit for every frame up to the end of the last entry,
-- which is not within 32 KiB of the end of the address space, and with available entries that are valid
-- extents whose whole frames are in the bitmap, have a byte boundary in them and do not end in the first
-- byte: it returns, and whatever was in the bitmap before, a frame is free after exactly if all of its
-- addresses are in one available entry.
pub fill_bitmap_from_map_frees :
    (bitmap : Bitmap) (m : Map) (final : MapEntry) (end : ℕ)
    → last_entry (entries m) ≡ some final
    → Extent.end_address final.extent ≡ ok end
    → end ≤ 32768 * length bitmap
    → end + 32768 < u64_end
    → All (λ e. is_available e.mem_type ≡ true → IsFitting (length bitmap) e.extent) m.entries
    → (after : Bitmap) × (fill_bitmap_from_map bitmap m ≡ ok after)
      × (length after ≡ length bitmap)
      × IsBytes after
      × ((j : ℕ) → free after j ≡ (if in_available m.entries j then 1 else 0))
unfolding iter_type
fill_bitmap_from_map_frees bitmap m final end e_final e_end enough small fitting =
    let r = available_ranges (length bitmap) m.entries fitting in
    let (after, run, same_length, bytes, marks) =
      fill_bitmap_from_map_lem bitmap m final end r.ranges e_final e_end enough small r.run r.all in
    (after, run, same_length, bytes, λ j. marks j ∙ ap (λ b. if b then 1 else 0) (r.same j))
