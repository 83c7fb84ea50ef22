-- ===== src/Paging/Mapper.antt =====
-- The operations of `Mapper` of src/mm/paging.rs, over a translator and a frame allocator that are
-- parameters.
use testos.Base.{ℕ, not, ◌==◌, if◌then◌else◌, bit_and, bit_or}
use testos.Addr.{Address, is_aligned_to}
use testos.Frame.{Frame}
use testos.Page.{Page, l4_index, l3_index, l2_index, l1_index}
use testos.Paging.Flags
use testos.Paging.Flags.{PageTableFlags, contains}
use testos.Paging.Action.{
  translation_failed, frame_allocation_failed, Mapper, Action, ◌>>=◌, ◌>>◌, pure, lift, ok_or, must,
  load, store, store_table, get_frame,
}
use testos.Paging.{leaf_entry, zero_table, set_addr, get_addr, set_flags, get_flags}

module _ {ℓ} {S : Type ℓ} where
  -- The closure of `next_level_alloc`.
  unfoldable pub translate : Mapper S → Address → Action S Address
  translate mapper phys = do
    answer ← lift (mapper.translator phys)
    virt ← ok_or answer translation_failed
    must (not (virt == 0))
    aligned ← lift (is_aligned_to virt 4096)
    must aligned
    pure virt

  -- An entry that is present: its flags are set, and it is followed.
  unfoldable pub follow :
      Mapper S → Address → ℕ → PageTableFlags → PageTableFlags → Action S Address
  follow mapper t i flags mask_flags = do
    e ← load t i
    old ← lift (get_flags e)
    store t i (set_flags e (bit_or (bit_and old mask_flags) flags))
    changed ← load t i
    translate mapper (get_addr changed)

  -- An entry that is not present: a new table.
  unfoldable pub add_table : Mapper S → Address → ℕ → PageTableFlags → Action S Address
  add_table mapper t i flags = do
    new_frame ← get_frame mapper
    f ← ok_or new_frame frame_allocation_failed
    ptr ← translate mapper f.start
    store_table ptr zero_table
    e ← load t i
    with_addr ← lift (set_addr e f.start)
    store t i with_addr
    store t i (set_flags with_addr (bit_or flags Flags.present))
    pure ptr

  unfoldable pub next_level_alloc :
      Mapper S → Address → ℕ → PageTableFlags → PageTableFlags → Action S Address
  next_level_alloc mapper t i flags mask_flags = do
    e ← load t i
    old ← lift (get_flags e)
    if contains old Flags.present
        then follow mapper t i flags mask_flags
        else add_table mapper t i flags

  unfoldable pub map :
      Mapper S
      → Page
      → Frame
      → PageTableFlags
      → PageTableFlags
      → PageTableFlags
      → Action S (Unit {0})
  map mapper p f leaf_flags parent_set_flags parent_mask_flags = do
    l3 ← next_level_alloc mapper mapper.level_4 (l4_index p) parent_set_flags parent_mask_flags
    l2 ← next_level_alloc mapper l3 (l3_index p) parent_set_flags parent_mask_flags
    l1 ← next_level_alloc mapper l2 (l2_index p) parent_set_flags parent_mask_flags
    e ← lift (leaf_entry f leaf_flags)
    store l1 (l1_index p) e
