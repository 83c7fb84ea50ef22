-- ===== src/Tests/Frames.antt =====
-- The theorems on frames and the bump allocator at concrete inputs.
use testos.Base.{ℕ, ◌*◌, ◌≤◌, ◌<◌, ◌≡◌, ◌⊎◌, refl, arith, some, [], ◌∷◌, ok, panic}
use testos.Extent.{Extent, extent}
use testos.Extent.Valid.{IsExtent}
use testos.Frame.{frame}
use testos.Frame.Valid.{IsFrame}
use testos.FrameRange.{FrameRange, range, iter, containing_extent, contained_by_extent}
use testos.FrameRange.Valid.{IsRange, end_of}
use testos.FrameRange.Iter.{iter-eq-frames_from}
use testos.FrameRange.Covering.{containing_extent_least, contained_by_extent_lem, all_but_last}
use testos.BumpAllocator
use testos.BumpAllocator.{bump}
use testos.BumpAllocator.Laws.{allocate_frames, allocate-eq-frames_from}

abbrev three : FrameRange
three = range (frame 8192) 3

three-IsRange : IsRange three
three-IsRange = record { aligned = refl; nonempty = omega arith; fits = omega arith }

start-IsFrame : IsFrame (frame 8192)
start-IsFrame = record { aligned = refl; fits = omega arith }

abbrev bytes : Extent
bytes = extent 5000 20000

bytes-IsExtent : IsExtent bytes
bytes-IsExtent = record { nonempty = omega arith; fits = omega arith }

iter-eq-frames_from_example : iter three ≡ ok (frame 8192 ∷ frame 12288 ∷ frame 16384 ∷ [])
iter-eq-frames_from_example = iter-eq-frames_from three three-IsRange

containing_extent_least_example :
    (r : FrameRange) × (containing_extent bytes ≡ ok r)
    × IsRange r
    × (r.first.start ≤ 5000)
    × (25000 ≤ end_of r)
    × ((p q : ℕ)
        → p * 4096 ≤ 5000
        → 25000 ≤ q * 4096
        → (p * 4096 ≤ r.first.start) × (end_of r ≤ q * 4096))
containing_extent_least_example = containing_extent_least bytes bytes-IsExtent

contained_by_extent_lem_example :
    ((25000 ≤ 4096) × (contained_by_extent bytes ≡ panic))
    ⊎ ((4096 < 25000) × (contained_by_extent bytes ≡ ok (all_but_last bytes)))
contained_by_extent_lem_example = contained_by_extent_lem bytes bytes-IsExtent (omega arith)

allocate-eq-frames_from_example :
    allocate_frames 2 (BumpAllocator.new three)
    ≡ ok (frame 8192 ∷ frame 12288 ∷ [], bump (some (range (frame 16384) 1)))
allocate-eq-frames_from_example =
    allocate-eq-frames_from three 2 three-IsRange (omega arith) (omega arith)
