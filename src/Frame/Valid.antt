-- ===== src/Frame/Valid.antt =====
-- A frame starts at an address that is a multiple of the page size; every operation keeps that.
use testos.Base.{
  ℕ, ◌+◌, ◌*◌, ◌/◌, ◌%◌, ◌<◌, ◌≡◌, ◌≢◌, arith, Option, none, some, ok, panic, u64_end, ltb,
  if◌then◌else◌,
}
use testos.Addr.Align.{is_aligned_to-ok, align_down-ok}
use testos.Frame.{Frame, frame, new, containing, next}

pub record IsFrame (f : Frame) : Type 0 where
  pub aligned : f.start % 4096 ≡ 0
  pub fits : f.start < u64_end

pub new-ok : (s : ℕ) → s < u64_end → s % 4096 ≡ 0 → new s ≡ ok (frame s)
unfolding new
new-ok s h a = rw (is_aligned_to-ok 12 s (omega arith) h) (ground arith)

-- `Frame::new` panics exactly at an address that is not aligned to the page size.
pub new_panic : (s : ℕ) → s < u64_end → s % 4096 ≢ 0 → new s ≡ panic
unfolding new
new_panic s h a = rw (is_aligned_to-ok 12 s (omega arith) h) (ground arith)

-- The start of the frame that holds an address.
abbrev pub frame_start : ℕ → ℕ
frame_start x = x / 4096 * 4096

pub containing-ok : (x : ℕ) → x < u64_end → containing x ≡ ok (frame (frame_start x))
unfolding containing
containing-ok x h =
    rw (align_down-ok 12 x (omega arith) h) (new-ok (frame_start x) (omega arith) (omega arith))

-- The `n`th frame after one, if its start is an address.
abbrev pub nth : Frame → ℕ → Option Frame
nth f n = if ltb (f.start + n * 4096) u64_end then some (frame (f.start + n * 4096)) else none

-- `next` returns the frame `n` places on, or `none` if its start is no address.
pub next-eq-nth : (f : Frame) (n : ℕ) → IsFrame f → next f n ≡ ok (nth f n)
unfolding next
next-eq-nth f n v = ground (arith, new-ok (f.start + 4096 * n))
