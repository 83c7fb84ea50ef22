-- ===== src/BitmapAllocator/Tables.antt =====
-- The bits of a byte under the operations of the allocator, checked for every byte.
use testos.Base.{
  ℕ, zero, suc, ◌+◌, ◌-◌, ◌*◌, ◌/◌, ◌%◌, ◌^◌, ◌≤◌, ◌<◌, ◌≡◌, refl, arith, Bool, true, false, ◌&&◌,
  Option, none, some, bit_and, bit_or, ltb, leb, ◌==◌, ==_iff, ltb→lt, not, if◌then◌else◌, Outcome,
  ok, panic,
}
use testos.Base.Tables.{all_below, all_below_sound, all_below₂, all_below₂_sound}
use testos.BitmapAllocator.{shl_u8}
use testos.BitmapAllocator.BitGroup.{find_bit_group, find_from}

-- Bit `k` of a byte, 0 or 1.
abbrev pub bit : ℕ → ℕ → ℕ
bit b k = b / 2 ^ k % 2

test_table : all_below₂ 256 8 (λ b k. bit_and b (2 ^ k) == bit b k * 2 ^ k) ≡ true
unfolding all_below₂
test_table = refl

or_table :
    all_below₂ 256 8
      (λ b k. all_below 8 (λ j. bit (bit_or b (2 ^ k)) j == (if j == k then 1 else bit b j)))
    ≡ true
unfolding all_below₂
or_table = refl

-- The mask test of `reserve` and of the two release functions reads the frame's bit.
pub bit_and-bit : (b k : ℕ) → b < 256 → k < 8 → bit_and b (2 ^ k) ≡ bit b k * 2 ^ k
bit_and-bit b k hb hk = (==_iff _ _).0 (all_below₂_sound 256 8 _ b k test_table hb hk)

-- Setting bit `k` sets it, and changes no other.
pub bit-bit_or :
    (b k j : ℕ)
    → b < 256
    → k < 8
    → j < 8
    → bit (bit_or b (2 ^ k)) j ≡ (if j == k then 1 else bit b j)
bit-bit_or b k j hb hk hj =
    (==_iff _ _).0 (all_below_sound 8 _ j (all_below₂_sound 256 8 _ b k or_table hb hk) hj)

or_byte_table : all_below₂ 256 8 (λ b k. ltb (bit_or b (2 ^ k)) 256) ≡ true
unfolding all_below₂
or_byte_table = refl

pub bit_or-lt : (b k : ℕ) → b < 256 → k < 8 → bit_or b (2 ^ k) < 256
bit_or-lt b k hb hk = ltb→lt _ _ (all_below₂_sound 256 8 _ b k or_byte_table hb hk)

-- The byte that is left when the `2 ^ e` bits from `k` on are cleared.
abbrev pub clear_group : ℕ → ℕ → ℕ → ℕ
clear_group b size k = bit_and b (255 - shl_u8 (2 ^ size - 1) k)

clear_table :
    all_below 3 (λ e. all_below₂ 256 8 (λ b k. all_below 8 (λ j.
      bit (clear_group b (2 ^ e) k) j == (if leb k j && ltb j (k + 2 ^ e) then 0 else bit b j))))
    ≡ true
unfolding all_below₂
clear_table = refl

-- Clearing the group of `2 ^ e` bits from `k` on clears them, and changes no other.
pub bit-clear_group :
    (e b k j : ℕ)
    → e < 3
    → b < 256
    → k < 8
    → j < 8
    → bit (clear_group b (2 ^ e) k) j ≡ (if leb k j && ltb j (k + 2 ^ e) then 0 else bit b j)
bit-clear_group e b k j he hb hk hj = (==_iff _ _).0 (
    all_below_sound 8 _ j
      (all_below₂_sound 256 8 _ b k (all_below_sound 3 _ e clear_table he) hb hk) hj)

clear_byte_table :
    all_below 3 (λ e. all_below₂ 256 8 (λ b k. ltb (clear_group b (2 ^ e) k) 256)) ≡ true
unfolding all_below₂
clear_byte_table = refl

pub clear_group-lt : (e b k : ℕ) → e < 3 → b < 256 → k < 8 → clear_group b (2 ^ e) k < 256
clear_group-lt e b k he hb hk =
    ltb→lt _ _ (all_below₂_sound 256 8 _ b k (all_below_sound 3 _ e clear_byte_table he) hb hk)

-- The mask of one bit, as `reserve` writes it, is the group of one bit.
reserve_table : all_below₂ 256 8 (λ b k. bit_and b (255 - 2 ^ k) == clear_group b 1 k) ≡ true
unfolding all_below₂
reserve_table = refl

pub reserve_mask : (b k : ℕ) → b < 256 → k < 8 → bit_and b (255 - 2 ^ k) ≡ clear_group b 1 k
reserve_mask b k hb hk = (==_iff _ _).0 (all_below₂_sound 256 8 _ b k reserve_table hb hk)

-- Whether the `n` bits of `b` from `k` on are set.
unfoldable pub set_from : ℕ → ℕ → ℕ → Bool
set_from b zero k = true
set_from b (suc n) k = bit b k == 1 && set_from b n (k + 1)

-- Whether no aligned group of `s` bits of `b` is set.
no_group : ℕ → ℕ → Bool
unfolding set_from
no_group b s = all_below 8 (λ k. if k % s == 0 then not (set_from b s k) else true)

abbrev group_found : ℕ → ℕ → Outcome (Option ℕ) → Bool
group_found b s panic = false
group_found b s (ok none) = no_group b s
group_found b s (ok (some k)) = leb (k + s) 8 && k % s == 0 && set_from b s k

find_table :
    all_below 2 (λ e. all_below 256 (λ b. group_found b (2 ^ e) (find_bit_group b (2 ^ e)))) ≡ true
unfolding all_below find_bit_group find_from no_group
find_table = refl

-- What a search for `s` bits in `b` gives: an aligned group of bits that are all set, or no
-- result when there is none.
pub data Found (b s : ℕ) : Outcome (Option ℕ) → Type 0 where
  missing : ((k : ℕ) → k < 8 → k % s ≡ 0 → set_from b s k ≡ false) → Found b s (ok none)
  at_bit : (k : ℕ) → k + s ≤ 8 → k % s ≡ 0 → set_from b s k ≡ true → Found b s (ok (some k))

group_found-Found : (b s : ℕ) (r : Outcome (Option ℕ)) → group_found b s r ≡ true → Found b s r
unfolding no_group
group_found-Found b s panic h = absurd (cc)
group_found-Found b s (ok none) h = missing λ k hk al.
    let at = all_below_sound 8 (λ k. if k % s == 0 then not (set_from b s k) else true) k h hk in
    ground arith
group_found-Found b s (ok (some k)) h = at_bit k (ground arith) (ground arith) (ground arith)

-- `find_bit_group` finds an aligned group of one or two set bits if there is one, and does not
-- panic.
pub find_bit_group-Found : (e b : ℕ) → e < 2 → b < 256 → Found b (2 ^ e) (find_bit_group b (2 ^ e))
find_bit_group-Found e b he hb =
    group_found-Found b (2 ^ e) _ (all_below_sound 256 _ b (all_below_sound 2 _ e find_table he) hb)

restore_table :
    all_below₂ 256 8 (λ b k. if bit b k == 1 then bit_or (clear_group b 1 k) (2 ^ k) == b else true)
    ≡ true
unfolding all_below₂
restore_table = refl

-- Setting a bit again that was set and cleared gives the byte back.
pub bit_or-clear_group :
    (b k : ℕ) → b < 256 → k < 8 → bit b k ≡ 1 → bit_or (clear_group b 1 k) (2 ^ k) ≡ b
bit_or-clear_group b k hb hk h =
    let at =
      all_below₂_sound 256 8
        (λ b k. if bit b k == 1 then bit_or (clear_group b 1 k) (2 ^ k) == b else true) b k
        restore_table hb hk in
    ground arith

full_table : all_below 256 (λ b. if set_from b 8 0 then b == 255 else true) ≡ true
unfolding all_below set_from
full_table = refl

-- A byte whose bits are all set is `u8::MAX`, and conversely.
pub full_byte : (b : ℕ) → b < 256 → set_from b 8 0 ≡ true → b ≡ 255
full_byte b hb h =
    let at = all_below_sound 256 (λ b. if set_from b 8 0 then b == 255 else true) b full_table hb in
    ground arith

full_bits : all_below 8 (λ k. bit 255 k == 1) ≡ true
unfolding all_below
full_bits = refl

pub bit-full : (k : ℕ) → k < 8 → bit 255 k ≡ 1
bit-full k h = (==_iff _ _).0 (all_below_sound 8 _ k full_bits h)
