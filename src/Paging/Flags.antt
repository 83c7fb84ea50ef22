-- ===== src/Paging/Flags.antt =====
-- `PageTableFlags` of src/mm/paging.rs. A flag set of the crate bitflags is the number of its bits.
use testos.Base.{ℕ, ◌+◌, ◌-◌, ◌^◌, Bool, Option, none, some, ◌==◌, if◌then◌else◌, bit_and}

abbrev pub PageTableFlags : Type 0
PageTableFlags = ℕ

abbrev pub present : PageTableFlags
present = 2 ^ 0

abbrev pub writable : PageTableFlags
writable = 2 ^ 1

abbrev pub global : PageTableFlags
global = 2 ^ 8

abbrev pub execute_disable : PageTableFlags
execute_disable = 2 ^ 63

abbrev pub app_parent_frozen : PageTableFlags
app_parent_frozen = 2 ^ 62

-- `PageTableFlags::all()`: bits 0 to 8, 62 and 63.
abbrev pub all : PageTableFlags
all = (2 ^ 9 - 1) + 2 ^ 62 + 2 ^ 63

abbrev pub contains : PageTableFlags → PageTableFlags → Bool
contains flags other = bit_and flags other == other

-- `PageTableFlags::from_bits`: none if a bit is no flag.
abbrev pub from_bits : ℕ → Option PageTableFlags
from_bits bits = if bit_and bits all == bits then some bits else none
