-- ===== src/Page.antt =====
-- `Page` of shared/src/memory/page.rs: a 4 KiB page of virtual memory, by its start address, and
-- the places of its entries in the four levels of page tables.
pub mod Indices
use testos.Base.{
  ℕ, ◌*◌, ◌/◌, ◌^◌, Option, some, Outcome, ok, ◌>>=◌, ◌>>◌, assert, or_return, checked_mul, bit_and,
}
use testos.Addr.{Address, offset_by_checked, align_down, is_aligned_to}
use testos.Extent
use testos.Extent.{Extent}
use testos.Frame.{page_size}

pub record Page : Type 0 where
  pub start : Address

abbrev pub page : Address → Page
page s = record { start = s }

unfoldable pub new : Address → Outcome Page
new start = do aligned ← is_aligned_to start page_size; assert aligned; ok (page start)

unfoldable pub containing : Address → Outcome Page
containing addr = do start ← align_down addr page_size; new start

unfoldable pub extent : Page → Outcome Extent
extent p = Extent.new p.start page_size

unfoldable pub next : Page → ℕ → Outcome (Option Page)
next p n =
    or_return (checked_mul page_size n)
      (λ l. or_return (offset_by_checked p.start l) (λ s. do q ← new s; ok (some q)))

-- The nine bits from `first_bit` on: `(start & (0b1_1111_1111 << FIRST_BIT)) >> FIRST_BIT`.
abbrev pub nine_bits : ℕ → ℕ → ℕ
nine_bits first_bit start = bit_and start (511 * 2 ^ first_bit) / 2 ^ first_bit

unfoldable pub l4_index : Page → ℕ
l4_index p = nine_bits 39 p.start

unfoldable pub l3_index : Page → ℕ
l3_index p = nine_bits 30 p.start

unfoldable pub l2_index : Page → ℕ
l2_index p = nine_bits 21 p.start

unfoldable pub l1_index : Page → ℕ
l1_index p = nine_bits 12 p.start
