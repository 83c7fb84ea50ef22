-- ===== src/Mm/Translate.antt =====
-- The direct mapping of physical memory, `phys_to_virt` of src/mm.rs.
use testos.Base.{ℕ, ◌+◌, ◌≤◌, ◌<◌, ◌≡◌, ◌⊎◌, inl, inr, le_or_lt, arith, ok, panic}
use testos.Extent
use testos.Mm.{max_memory, phys_to_virt}

-- The start of `VirtualMap::phys_map`.
abbrev pub phys_map_start : ℕ
phys_map_start = 0xffff800000000000

pub phys_to_virt-ok :
    (phys : ℕ) → phys < max_memory → phys_to_virt phys ≡ ok (phys_map_start + phys)
unfolding phys_to_virt Extent.from_range_exclusive
phys_to_virt-ok phys h = ground arith

-- Memory below 128 GiB appears in the direct mapping, at the same distance from its start; for any
-- other address the code panics.
pub phys_to_virt_lem :
    (phys : ℕ)
    → ((phys < max_memory) × (phys_to_virt phys ≡ ok (phys_map_start + phys)))
      ⊎ ((max_memory ≤ phys) × (phys_to_virt phys ≡ panic))
unfolding phys_to_virt
phys_to_virt_lem phys = elim (le_or_lt max_memory phys) [
  | inl big ↦ inr (big, ground arith)
  | inr small ↦ inl (small, phys_to_virt-ok phys small)
]
