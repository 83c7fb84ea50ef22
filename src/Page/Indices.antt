-- ===== src/Page/Indices.antt =====
-- The table indices of a page are the digits of its page number in base 512.
use native.Mathlib.Nat.{mul-div_cancel}
use testos.Base.{ℕ, ◌+◌, ◌*◌, ◌/◌, ◌%◌, ◌^◌, ◌<◌, ◌≡◌, arith}
use testos.Base.Bits.{bit_and-field, pow-pos}
use testos.Page.{Page, nine_bits, l4_index, l3_index, l2_index, l1_index}

nine_bits-eq : (k x : ℕ) → nine_bits k x ≡ x / 2 ^ k % 512
nine_bits-eq k x = rw (bit_and-field k 9 x, mul-div_cancel (x / 2 ^ k % 512) (pow-pos k))

-- The four indices of a page are below 512, and with the 16 high bits, which no index holds, they
-- give its start address back. So two pages that share these bits and all indices are the same.
pub start-of_indices :
    (p : Page)
    → p.start % 4096 ≡ 0
    → (l4_index p < 512)
      × (l3_index p < 512)
      × (l2_index p < 512)
      × (l1_index p < 512)
      × (p.start
          ≡ (((p.start / 2 ^ 48 * 512 + l4_index p) * 512 + l3_index p) * 512 + l2_index p) * 2 ^ 21
            + l1_index p * 4096)
unfolding l4_index l3_index l2_index l1_index
start-of_indices p al =
    rw
      (
        nine_bits-eq 39 p.start,
        nine_bits-eq 30 p.start,
        nine_bits-eq 21 p.start,
        nine_bits-eq 12 p.start,
      )
      (omega arith, omega arith, omega arith, omega arith, omega arith)

pub l4_index-eq : (p : Page) → l4_index p ≡ p.start / 2 ^ 39 % 512
unfolding l4_index
l4_index-eq p = nine_bits-eq 39 p.start
