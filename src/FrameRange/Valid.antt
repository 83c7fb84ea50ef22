-- ===== src/FrameRange/Valid.antt =====
-- What `FrameRange::new` promises, and the addresses that a range covers.
use testos.Base.{
  ℕ, ◌+◌, ◌-◌, ◌*◌, ◌%◌, ◌<◌, ◌≡◌, ◌↔◌, arith, Option, none, some, ok, u64_end, ltb, if◌then◌else◌,
  ◌==◌,
}
use testos.Frame.{Frame, frame}
use testos.Frame.Valid.{IsFrame, next-eq-nth}
use testos.FrameRange.{FrameRange, range, new, new_unwrap, last}

pub record IsRange (r : FrameRange) : Type 0 where
  pub aligned : r.first.start % 4096 ≡ 0
  pub nonempty : 0 < r.count
  pub fits : r.first.start + (r.count - 1) * 4096 < u64_end

pub first-IsFrame : (r : FrameRange) → IsRange r → IsFrame r.first
first-IsFrame r v = omega arith

-- The address past the range, as a number.
abbrev pub end_of : FrameRange → ℕ
end_of r = r.first.start + r.count * 4096

-- The range, if it is not empty and its last frame has an address.
abbrev pub made : Frame → ℕ → Option FrameRange
made f n =
    if n == 0
    then none
    else if ltb (f.start + (n - 1) * 4096) u64_end
    then some (range f n)
    else none

pub new-eq-made : (f : Frame) (n : ℕ) → IsFrame f → new f n ≡ ok (made f n)
unfolding new
new-eq-made f n v = ground (arith, next-eq-nth f (n - 1) v)

-- `FrameRange::new` returns exactly the ranges that are not empty and whose last frame has an
-- address; for a valid first frame it never panics.
pub new_iff :
    (f : Frame) (n : ℕ)
    → IsFrame f
    → (o : Option FrameRange) × (new f n ≡ ok o)
      × ((r : FrameRange) → (o ≡ some r) ↔ ((range f n ≡ r) × IsRange r))
new_iff f n v = (made f n, new-eq-made f n v, λ r. (λ h. ground arith, λ (e, w). ground arith))

pub new_unwrap-ok : (f : Frame) (n : ℕ) → IsRange (range f n) → new_unwrap f n ≡ ok (range f n)
unfolding new_unwrap
new_unwrap-ok f n v = ground (arith, new-eq-made f n (omega arith))

abbrev pub last_frame : FrameRange → Frame
last_frame r = frame (r.first.start + (r.count - 1) * 4096)

pub last-ok : (r : FrameRange) → IsRange r → last r ≡ ok (last_frame r)
unfolding last
last-ok r v = ground (arith, next-eq-nth r.first (r.count - 1) (omega arith))

pub new-ok : (f : Frame) (n : ℕ) → IsRange (range f n) → new f n ≡ ok (some (range f n))
new-ok f n v = ground (arith, new-eq-made f n (omega arith))
