-- ===== src/BumpAllocator.antt =====
-- `BumpFrameAllocator` of shared/src/memory/alloc/phys.rs.
pub mod Laws
use testos.Base.{ℕ, Option, none, some, Outcome, ok, ◌>>=◌, sub}
use testos.Frame
use testos.Frame.{Frame}
use testos.FrameRange
use testos.FrameRange.{FrameRange}

pub record BumpAllocator : Type 0 where
  pub remain : Option FrameRange

abbrev pub bump : Option FrameRange → BumpAllocator
bump r = record { remain = r }

unfoldable pub new : FrameRange → BumpAllocator
new frames = bump (some frames)

-- `allocate` with frames left. If the frame after the first has no address, the `?` returns
-- before the state is changed.
unfoldable pub take_first : FrameRange → Outcome (Option Frame × BumpAllocator)
take_first remain = do
  following ← Frame.next remain.first 1
  elim following [
    | none ↦ ok (none, bump (some remain))
    | some f ↦ do
      left ← sub remain.count 1
      r ← FrameRange.new f left
      ok (some remain.first, bump r)
  ]

unfoldable pub allocate : BumpAllocator → Outcome (Option Frame × BumpAllocator)
allocate a = elim a.remain [ none ↦ ok (none, a) | some remain ↦ take_first remain ]

-- `unwrap`, which hands back the frames that are left.
unfoldable pub remaining : BumpAllocator → Option FrameRange
remaining a = a.remain
