-- ===== src/FrameRange/Iter.antt =====
-- `iter` walks over exactly the frames of the range, in order, and ends.
use testos.Base.{
  ℕ, zero, suc, ◌+◌, ◌-◌, ◌*◌, ◌%◌, ◌<◌, ◌≡◌, arith, some, List, [], ◌∷◌, ok, u64_end, lt→ltb,
  le→not-ltb,
}
use testos.Frame.{Frame, frame}
use testos.Frame
use testos.Frame.Valid.{next-eq-nth}
use testos.FrameRange.{FrameRange, range, iter, successors}
use testos.FrameRange.Valid.{IsRange, last-ok}

-- The `n` frames from `f` on.
abbrev pub frames_from : ℕ → Frame → List Frame
frames_from zero f = []
frames_from (suc n) f = f ∷ frames_from n (frame (f.start + 4096))

next-frame :
    (f : Frame)
    → f.start % 4096 ≡ 0
    → f.start + 4096 < u64_end
    → Frame.next f 1 ≡ ok (some (frame (f.start + 4096)))
next-frame f a h = ground (arith, next-eq-nth f 1 (omega arith))

successors-eq-frames_from :
    (n : ℕ) (f : Frame) (final : ℕ)
    → f.start + n * 4096 ≡ final
    → final < u64_end
    → f.start % 4096 ≡ 0
    → successors (suc n) (frame final) f ≡ ok (frames_from (suc n) f)
unfolding successors
successors-eq-frames_from zero f final e h a =
    rw (le→not-ltb f.start final (omega arith), successors)
successors-eq-frames_from (suc n) f final e h a = rw (
  lt→ltb f.start final (omega arith),
  next-frame f a (omega arith),
  successors-eq-frames_from n (frame (f.start + 4096)) final (omega arith) h (omega arith),
  successors,
)

iter_from : (f : Frame) (n : ℕ) → IsRange (range f n) → iter (range f n) ≡ ok (frames_from n f)
unfolding iter
iter_from f zero v = absurd (omega arith)
iter_from f (suc n) v = rw (last-ok (range f (suc n)) v) (
    successors-eq-frames_from n f (f.start + (suc n - 1) * 4096) (omega arith) (omega arith)
      (omega arith))

-- `iter` of a valid range ends without a panic, and gives `count` frames: the first one, and each
-- one page after the one before.
pub iter-eq-frames_from : (r : FrameRange) → IsRange r → iter r ≡ ok (frames_from r.count r.first)
iter-eq-frames_from r v = iter_from r.first r.count v
