-- ===== src/Mm/FreeFrames.antt =====
-- The bitmap that `init` of src/mm.rs hands to the frame allocator: filled from the memory map, and then
-- with the reserved extents taken out.
use testos.Base.{
  ℕ, ◌+◌, ◌*◌, ◌≤◌, ◌<◌, ◌≡◌, sym, ap, ◌∙◌, subst, some, List, if◌then◌else◌, ok, ◌>>=◌, All,
  length, u64_end,
}
use testos.Extent
use testos.Extent.{Extent}
use testos.FrameRange.{FrameRange}
use testos.MemoryMap.{Map, MapEntry, entries, iter_type, iter_map_frames, available}
use testos.BitmapAllocator.{Bitmap}
use testos.BitmapAllocator.Spec.{IsBytes, free}
use testos.FillBitmap.{last_entry, fill_bitmap_from_map}
use testos.FillBitmap.FromMap.{IsFillable, in_some, fill_bitmap_from_map_lem}
use testos.Mm.Init.{reserve_extents}
use testos.Mm.Reserve.{in_any, IsReservable, reserve_extents-Reserved}

-- Filling the bitmap and then reserving returns, and whatever was in the bitmap before, a frame is free
-- after exactly if it is in one of the ranges that iter_map_frames gives for the available entries and
-- holds no address of a reserved extent. The bitmap has a bit for every frame up to the end of the last
-- entry, which is not within 32 KiB of the end of the address space; the ranges are in the bitmap, have a
-- byte boundary in them and do not end in the first byte; the reserved extents are valid and within the
-- frames of the bitmap.
pub fill_bitmap_from_map-reserve_extents :
    (bitmap : Bitmap) (m : Map) (final : MapEntry) (end : ℕ) (rs : List FrameRange)
    (es : List Extent)
    → last_entry (entries m) ≡ some final
    → Extent.end_address final.extent ≡ ok end
    → end ≤ 32768 * length bitmap
    → end + 32768 < u64_end
    → iter_map_frames (iter_type m available) ≡ ok rs
    → All (IsFillable (length bitmap)) rs
    → All (IsReservable (length bitmap)) es
    → (after : Bitmap) × ((fill_bitmap_from_map bitmap m >>= reserve_extents es) ≡ ok after)
      × IsBytes after
      × ((j : ℕ) → free after j ≡ (if in_any es j then 0 else if in_some rs j then 1 else 0))
fill_bitmap_from_map-reserve_extents bitmap m final end rs es e_final e_end enough small e_rs
      fillable reservable =
    let (filled, e, same, bytes, marks) =
      fill_bitmap_from_map_lem bitmap m final end rs e_final e_end enough small e_rs fillable in
    let done =
      reserve_extents-Reserved es filled bytes
        (subst (λ n. All (IsReservable n) es) (sym same) reservable) in
    (
      done.after,
      rw e done.returns,
      done.bytes,
      λ j. done.marks j ∙ ap (λ n. if in_any es j then 0 else n) (marks j),
    )
