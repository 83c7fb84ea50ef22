-- ===== src/BitmapAllocator/BitGroup.antt =====
-- `find_bit_group` of shared/src/memory/alloc/phys.rs.
use testos.Base.{
  ℕ, zero, suc, ◌+◌, ◌-◌, ◌*◌, ◌/◌, ◌%◌, ◌^◌, Bool, ◌||◌, Option, none, some, bit_and, ltb, ◌==◌,
  if◌then◌else◌, Outcome, ok, panic, ◌>>◌, assert,
}

-- `usize::is_power_of_two`, for numbers below 8.
abbrev is_power_of_two : ℕ → Bool
is_power_of_two n = n == 1 || n == 2 || n == 4

-- The `while` loop, on fuel. `mask << shift` loses the bits that are shifted out of the byte.
unfoldable pub find_from : ℕ → ℕ → ℕ → ℕ → ℕ → Outcome (Option ℕ)
find_from zero byte mask len shift = panic
find_from (suc fuel) byte mask len shift =
    let later = find_from fuel byte mask len (shift + len) in
    if ltb shift 8
    then (if bit_and byte (mask * 2 ^ shift % 256) / 2 ^ shift == mask
        then ok (some shift)
        else later)
    else ok none

-- The shift grows in every round, so that the loop ends after at most 8 of them, the ninth test.
unfoldable pub find_bit_group : ℕ → ℕ → Outcome (Option ℕ)
find_bit_group byte len = do
  assert (ltb len 8)
  assert (is_power_of_two len)
  find_from 9 byte ((len * 2 - 1) % 256) len 0
