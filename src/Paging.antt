-- ===== src/Paging.antt =====
-- Page tables of src/mm/paging.rs: an entry, its flags and its address. A flag set of the crate
-- bitflags is the number of its bits. An operation on `&mut self` returns the new entry.
pub mod Flags
pub mod Action
pub mod Mapper
pub mod Entry
pub mod Walk
pub mod Agree
pub mod Linked
pub mod Supply
pub mod Level
pub mod Mask
pub mod Leaf
pub mod Map
use testos.Base.{
  ℕ, ◌+◌, ◌-◌, ◌*◌, ◌^◌, Bool, Option, none, some, ltb, ◌==◌, if◌then◌else◌, Outcome, ok, ◌>>=◌,
  ◌>>◌, assert, unwrap, bit_and, bit_or,
}
use testos.Addr.{Address, is_aligned_to}
use testos.Frame.{Frame, page_size}
use testos.Paging.Flags
use testos.Paging.Flags.{PageTableFlags, from_bits}

abbrev pub max_phys_addr_bits : ℕ
max_phys_addr_bits = 52

-- `2 << MAX_PHYS_ADDR_BITS`.
abbrev pub max_phys_addr : Address
max_phys_addr = 2 * 2 ^ max_phys_addr_bits

pub record PageTableEntry : Type 0 where
  pub raw : ℕ

abbrev pub entry : ℕ → PageTableEntry
entry raw = record { raw = raw }

abbrev pub zero_entry : PageTableEntry
zero_entry = entry 0

-- `((1 << 36) - 1) << 12`.
abbrev pub page_table_entry_addr_bits : ℕ
page_table_entry_addr_bits = (2 ^ 36 - 1) * 2 ^ 12

unfoldable pub set_addr : PageTableEntry → Address → Outcome PageTableEntry
set_addr e addr = do
  aligned ← is_aligned_to addr page_size
  assert aligned
  assert (ltb addr max_phys_addr)
  ok (entry (bit_or e.raw addr))

unfoldable pub get_addr : PageTableEntry → Address
get_addr e = bit_and e.raw page_table_entry_addr_bits

unfoldable pub set_flags : PageTableEntry → PageTableFlags → PageTableEntry
set_flags e flags = entry (bit_or e.raw flags)

unfoldable pub get_flags : PageTableEntry → Outcome PageTableFlags
get_flags e = unwrap (from_bits (bit_and e.raw Flags.all))

-- The entry that `Mapper::map` writes.
unfoldable pub leaf_entry : Frame → PageTableFlags → Outcome PageTableEntry
leaf_entry f leaf_flags = do e ← set_addr zero_entry f.start; ok (set_flags e leaf_flags)

-- The 512 entries of a table by their index. No other index is used: see `Page.Indices`.
abbrev pub PageTable : Type 0
PageTable = ℕ → PageTableEntry

abbrev pub zero_table : PageTable
zero_table i = zero_entry
