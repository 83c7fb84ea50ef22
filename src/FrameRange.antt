-- ===== src/FrameRange.antt =====
-- `FrameRange` of shared/src/memory/page.rs: a contiguous range of frames, never empty.
pub mod Valid
pub mod Iter
pub mod Covering
use testos.Base.{
  ℕ, zero, suc, ◌+◌, ◌/◌, Bool, true, false, Option, none, some, List, [], ◌∷◌, ltb, leb, ◌==◌,
  if◌then◌else◌, Outcome, ok, panic, ◌>>=◌, ◌>>◌, assert, unwrap, or_return, add, sub,
}
use testos.Addr.{Address, distance, sub_length, add_length, align_up, align_down, is_aligned_to}
use testos.Extent
use testos.Extent.{Extent}
use testos.Frame
use testos.Frame.{Frame, page_size}

pub record FrameRange : Type 0 where
  pub first : Frame
  pub count : ℕ

abbrev pub range : Frame → ℕ → FrameRange
range f n = record { first = f; count = n }

unfoldable pub new : Frame → ℕ → Outcome (Option FrameRange)
new first count = if count == 0 then ok none else do
  n ← sub count 1
  last ← Frame.next first n
  or_return last (λ _. ok (some (range first count)))

-- `FrameRange::new(..).unwrap()`.
unfoldable pub new_unwrap : Frame → ℕ → Outcome FrameRange
new_unwrap first count = do r ← new first count; unwrap r

unfoldable pub one : Frame → Outcome FrameRange
one f = new_unwrap f 1

unfoldable pub between_inclusive : Frame → Frame → Outcome FrameRange
between_inclusive first last = do
  len ← distance last.start first.start
  count ← add (len / page_size) 1
  new_unwrap first count

unfoldable pub between_exclusive : Frame → Frame → Outcome FrameRange
between_exclusive first last = do
  len ← distance last.start first.start
  new_unwrap first (len / page_size)

unfoldable pub containing_extent : Extent → Outcome FrameRange
containing_extent e = do
  first ← Frame.containing e.address
  last_addr ← Extent.last_address e
  last ← Frame.containing last_addr
  between_inclusive first last

unfoldable pub contained_by_extent : Extent → Outcome (Option FrameRange)
contained_by_extent e = do
  first ← align_up e.address page_size
  last_addr ← Extent.last_address e
  back ← sub_length last_addr page_size
  after ← add_length back 1
  last ← align_down after page_size
  if leb last first then ok none else do
    len ← distance last first
    aligned ← is_aligned_to len page_size
    assert aligned
    f ← Frame.new first
    new f (len / page_size)

unfoldable pub last : FrameRange → Outcome Frame
last r = do n ← sub r.count 1; f ← Frame.next r.first n; unwrap f

unfoldable pub end : FrameRange → Outcome (Option Frame)
end r = Frame.next r.first r.count

-- `iter::successors`: the frames from `frame` on, up to `last`. The fuel is the number of frames
-- left; without fuel the walk has not ended (see FrameRange/Iter.antt).
unfoldable pub successors : ℕ → Frame → Frame → Outcome (List Frame)
successors zero final f = panic
successors (suc fuel) final f = elim (ltb f.start final.start) [
  | true ↦ do
    g ← Frame.next f 1
    elim g [ none ↦ ok (f ∷ []) | some h ↦ do rest ← successors fuel final h; ok (f ∷ rest) ]
  | false ↦ ok (f ∷ [])
]

unfoldable pub iter : FrameRange → Outcome (List Frame)
iter r = do l ← last r; successors r.count l r.first
