-- ===== src/Base/Word.antt =====
-- Machine words as native numbers. `+ - *` on `u64` and `usize` panic on overflow, as in the
-- development profile; the `checked_` forms return `None`.
use Prim.Native.Nat.{ℕ, ◌+◌, ◌-◌, ◌*◌, ◌^◌, ◌≤◌, ◌<◌}
use mathlib.Core.Path.{◌≡◌}
use mathlib.Core.Option.{Option, none, some}
use native.Mathlib.Omega.{arith}
use testos.Base.Tests.{ltb, leb, if◌then◌else◌}
use testos.Base.Fallible.{Outcome, ok, unwrap}

abbrev pub u64_end : ℕ
u64_end = 2 ^ 64

-- `u64::MAX`.
abbrev pub u64_max : ℕ
u64_max = 2 ^ 64 - 1

abbrev pub checked_add : ℕ → ℕ → Option ℕ
checked_add a b = if ltb (a + b) u64_end then some (a + b) else none

abbrev pub checked_sub : ℕ → ℕ → Option ℕ
checked_sub a b = if leb b a then some (a - b) else none

abbrev pub checked_mul : ℕ → ℕ → Option ℕ
checked_mul a b = if ltb (a * b) u64_end then some (a * b) else none

abbrev pub add : ℕ → ℕ → Outcome ℕ
add a b = unwrap (checked_add a b)

abbrev pub sub : ℕ → ℕ → Outcome ℕ
sub a b = unwrap (checked_sub a b)

abbrev pub mul : ℕ → ℕ → Outcome ℕ
mul a b = unwrap (checked_mul a b)

pub add-ok : (a b : ℕ) → a + b < u64_end → add a b ≡ ok (a + b)
add-ok a b h = ground arith

pub sub-ok : (a b : ℕ) → b ≤ a → sub a b ≡ ok (a - b)
sub-ok a b h = ground arith

pub mul-ok : (a b : ℕ) → a * b < u64_end → mul a b ≡ ok (a * b)
mul-ok a b h = ground arith
