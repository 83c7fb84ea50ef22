-- ===== src/Mm.antt =====
-- The map of virtual memory of src/mm.rs and its translations of addresses. The addresses that the
-- linker script sets are a parameter.
pub mod Bootstrap
pub mod Translate
pub mod Frames
pub mod Owned
pub mod Provider
pub mod Template
pub mod Each
pub mod Plan
pub mod Follows
pub mod Placed
pub mod SectionFlags
pub mod Built
pub mod Assigned
pub mod Direct
pub mod Clear
pub mod Whole
pub mod Mapped
pub mod Init
pub mod Reserve
pub mod FreeFrames
use testos.Base.{ℕ, ◌*◌, ◌/◌, ltb, leb, Outcome, ok, ◌>>=◌, ◌>>◌, assert}
use testos.Addr.{Address, Length, add_length, distance}
use testos.Extent
use testos.Extent.{Extent}
use testos.Frame.{page_size}

-- `VirtualMap`.
abbrev pub first_mib : Outcome Extent
first_mib = Extent.from_raw 0 (1024 * 1024)

abbrev pub user : Outcome Extent
user = do e ← first_mib; Extent.from_range_exclusive e.address 0x0000800000000000

abbrev pub phys_map : Outcome Extent
phys_map = Extent.from_range_exclusive 0xffff800000000000 0xffff80ffffffffff

abbrev pub kernel_image : Outcome Extent
kernel_image = Extent.from_range_exclusive 0xffffffff80000000 0xffffffffffffffff

abbrev pub max_memory : Length
max_memory = 137438953472

abbrev pub max_memory_frames : ℕ
max_memory_frames = max_memory / page_size

-- The symbols of the linker script, by their addresses.
pub record Symbols : Type 0 where
  pub kernel_phys_begin : Address
  pub kernel_phys_end : Address
  pub kernel_virt_base : Address

unfoldable pub phys_to_virt : Address → Outcome Address
phys_to_virt phys = do
  assert (ltb phys max_memory)
  e ← phys_map
  d ← distance phys 0
  add_length e.address d

unfoldable pub phys_extent_to_virt : Extent → Outcome Extent
phys_extent_to_virt phys = do v ← phys_to_virt phys.address; Extent.new v phys.length

-- A pointer is its address.
unfoldable pub kernel_ptr_to_phys_addr : Symbols → Address → Outcome Address
kernel_ptr_to_phys_addr s p = do assert (leb s.kernel_virt_base p); distance p s.kernel_virt_base

unfoldable pub get_kernel_phys_extent : Symbols → Outcome Extent
get_kernel_phys_extent s = Extent.from_range_exclusive s.kernel_phys_begin s.kernel_phys_end
