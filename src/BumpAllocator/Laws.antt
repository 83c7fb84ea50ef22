-- ===== src/BumpAllocator/Laws.antt =====
-- The bump allocator hands out the frames of its range in order.
use testos.Base.{
  ℕ, false, zero, suc, ◌+◌, ◌-◌, ◌*◌, ◌%◌, ◌≤◌, ◌<◌, ◌≡◌, arith, Option, none, some, List, [], ◌∷◌,
  ◌==◌, if◌then◌else◌, Outcome, ok, panic, ◌>>=◌, u64_end, sub-ok,
}
use testos.Frame.{Frame, frame}
use testos.Frame.Valid.{next-eq-nth}
use testos.FrameRange.{FrameRange, range}
use testos.FrameRange.Valid.{IsRange, new-eq-made, end_of}
use testos.FrameRange.Iter.{frames_from}
use testos.BumpAllocator.{BumpAllocator, bump, new, take_first, allocate}

-- `n` calls of `allocate` in a row that each give a frame; a call that gives none is a panic here.
unfoldable pub allocate_frames : ℕ → BumpAllocator → Outcome (List Frame × BumpAllocator)
allocate_frames zero a = ok ([], a)
allocate_frames (suc n) a = do
  (f, a') ← allocate a
  elim f [ none ↦ panic | some g ↦ do (gs, b) ← allocate_frames n a'; ok (g ∷ gs, b) ]

-- What is left of `n` frames after the first `k`, from `f` on.
abbrev pub rest_of : Frame → ℕ → Option FrameRange
rest_of f n = if n == 0 then none else some (range f n)

pub allocate-some :
    (f : Frame) (n : ℕ)
    → f.start % 4096 ≡ 0
    → f.start + suc n * 4096 < u64_end
    → allocate (bump (some (range f (suc n))))
      ≡ ok (some f, bump (rest_of (frame (f.start + 4096)) n))
unfolding allocate take_first
allocate-some f n al h = ground (
  arith,
  next-eq-nth f 1 (omega arith),
  sub-ok (suc n) 1,
  new-eq-made (frame (f.start + 4096)) n (omega arith),
)

allocate_frames_from :
    (k n : ℕ) (f : Frame)
    → k ≤ n
    → f.start % 4096 ≡ 0
    → f.start + n * 4096 < u64_end
    → allocate_frames k (bump (rest_of f n))
      ≡ ok (frames_from k f, bump (rest_of (frame (f.start + k * 4096)) (n - k)))
unfolding allocate_frames
allocate_frames_from zero n f le al h =
    let e : f.start + 0 * 4096 ≡ f.start = omega arith in
    let m : n - 0 ≡ n = omega arith in rw (e, m)
allocate_frames_from (suc k) zero f le al h = absurd (omega arith)
allocate_frames_from (suc k) (suc n) f le al h = rw (
  nonzero,
  allocate-some f n al h,
  allocate_frames_from k n (frame (f.start + 4096)) (omega arith) (omega arith) (omega arith),
  place,
  left,
)
  where
    nonzero : (suc n == 0) ≡ false
    nonzero = ground arith

    place : f.start + 4096 + k * 4096 ≡ f.start + suc k * 4096
    place = omega arith

    left : suc n - suc k ≡ n - k
    left = omega arith

-- An allocator of `r`, all of whose frames end at or below the last address: the first `k` calls
-- of `allocate`, for every `k` up to the number of frames, give the first `k` frames in order, and
-- leave the others, or `None` after the last.
pub allocate-eq-frames_from :
    (r : FrameRange) (k : ℕ)
    → IsRange r
    → end_of r < u64_end
    → k ≤ r.count
    → allocate_frames k (new r)
      ≡ ok (frames_from k r.first, bump (rest_of (frame (r.first.start + k * 4096)) (r.count - k)))
unfolding new
allocate-eq-frames_from r k v h le =
    rw (← whole_range) (allocate_frames_from k r.count r.first le (omega arith) h)
  where
    whole_range : rest_of r.first r.count ≡ some r
    whole_range = ground arith

-- The last frame of the address space is never handed out: with it alone left, `allocate` gives
-- `None` and keeps it.
pub allocate_top :
    (f : Frame)
    → f.start % 4096 ≡ 0
    → f.start + 4096 ≡ u64_end
    → allocate (bump (some (range f 1))) ≡ ok (none, bump (some (range f 1)))
unfolding allocate take_first
allocate_top f al h = ground (arith, next-eq-nth f 1 (omega arith))
