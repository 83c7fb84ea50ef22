-- ===== src/Frame.antt =====
-- `Frame` of shared/src/memory/page.rs: a 4 KiB physical memory frame, by its start address.
pub mod Valid
use testos.Base.{ℕ, ◌/◌, Option, some, Outcome, ok, ◌>>=◌, ◌>>◌, assert, or_return, checked_mul}
use testos.Addr.{Address, offset_by_checked, align_down, is_aligned_to}
use testos.Extent
use testos.Extent.{Extent}

abbrev pub page_size : ℕ
page_size = 4096

pub record Frame : Type 0 where
  pub start : Address

abbrev pub frame : Address → Frame
frame s = record { start = s }

unfoldable pub new : Address → Outcome Frame
new start = do aligned ← is_aligned_to start page_size; assert aligned; ok (frame start)

unfoldable pub index : Frame → ℕ
index f = f.start / page_size

unfoldable pub containing : Address → Outcome Frame
containing addr = do start ← align_down addr page_size; new start

unfoldable pub extent : Frame → Outcome Extent
extent f = Extent.new f.start page_size

-- The frame `n` after `f`.
unfoldable pub next : Frame → ℕ → Outcome (Option Frame)
next f n =
    or_return (checked_mul page_size n)
      (λ l. or_return (offset_by_checked f.start l) (λ s. do g ← new s; ok (some g)))
