-- ===== src/Addr.antt =====
-- Addresses and lengths of shared/src/memory/addr.rs. `Address` and `Length` wrap a `u64`; the
-- type parameter that tells physical from virtual addresses has no effect at run time, so both
-- are plain numbers here, with every operation's overflow check written out.
pub mod Align
use testos.Base.{
  ℕ, ◌+◌, ◌-◌, ◌≡◌, Bool, Option, none, some, bit_and, ◌==◌, Outcome, ok, panic, ◌>>=◌, unwrap,
  u64_max, checked_add, checked_sub, checked_mul, add, sub,
}

abbrev pub Address : Type 0
Address = ℕ

abbrev pub Length : Type 0
Length = ℕ

-- `x & !(alignment - 1)`.
unfoldable pub align_u64_down : ℕ → ℕ → Outcome ℕ
align_u64_down x alignment = do m ← sub alignment 1; ok (bit_and x (u64_max - m))

unfoldable pub align_u64_up : ℕ → ℕ → Outcome ℕ
align_u64_up x alignment = do m ← sub alignment 1; y ← add x m; align_u64_down y alignment

abbrev pub offset_by_checked : Address → Length → Option Address
offset_by_checked a l = checked_add a l

-- `Address + Length`.
abbrev pub add_length : Address → Length → Outcome Address
add_length a l = unwrap (offset_by_checked a l)

-- `Address - Length`.
abbrev pub sub_length : Address → Length → Outcome Address
sub_length a l = unwrap (checked_sub a l)

-- `Address - Address`.
abbrev pub distance : Address → Address → Outcome Length
distance a b = unwrap (checked_sub a b)

-- `Length * Int`.
abbrev pub mul_length : Length → ℕ → Outcome Length
mul_length l n = unwrap (checked_mul l n)

unfoldable pub align_down : Address → ℕ → Outcome Address
align_down a alignment = align_u64_down a alignment

unfoldable pub align_up : Address → ℕ → Outcome Address
align_up a alignment = align_u64_up a alignment

unfoldable pub is_aligned_to : Address → ℕ → Outcome Bool
is_aligned_to a alignment = do d ← align_down a alignment; ok (a == d)
