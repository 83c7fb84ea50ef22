-- ===== src/Tests/Paging.antt =====
-- The theorems on page tables at concrete inputs: a root table at 2 MiB, and three frames from 1 MiB on
-- in the identity mapping of the bootstrap.
use testos.Base.{
  ◌<◌, ◌+◌, ◌%◌, ◌^◌, ◌≤◌, ◌≡◌, ◌≢◌, ◌⊎◌, refl, arith, Option, none, some, [], ok, panic,
  if◌then◌else◌, ◌==◌,
}
use testos.Addr.{Address}
use testos.Frame.{frame}
use testos.FrameRange.{range}
use testos.Page.{page}
use testos.BumpAllocator.{BumpAllocator, bump}
use testos.Paging.Flags.{
  PageTableFlags, present, writable, execute_disable, global, app_parent_frozen, all,
}
use testos.Paging.{PageTableEntry, zero_entry, zero_table, set_addr, get_addr, set_flags, get_flags}
use testos.Paging.Action.{State, state}
use testos.Paging.Mapper.{map}
use testos.Paging.Entry.{set_addr_lem}
use testos.Paging.Walk.{Way}
use testos.Paging.Supply.{IsWellFormed}
use testos.Paging.Map.{Maps, map-Maps}
use testos.Paging.Mask.{map-masked}
use testos.Mm.Bootstrap.{bootstrap_mapper, Usable, Left, bump-Takes}

abbrev root : Address
root = 0x200000

abbrev leaf_flags : PageTableFlags
leaf_flags = present + writable + execute_disable

abbrev parent_flags : PageTableFlags
parent_flags = present + writable + global + app_parent_frozen

abbrev start : State BumpAllocator
start = state (λ a. zero_table) (bump (some (range (frame 0x100000) 3)))

abbrev only_root : Address → Option Way
only_root a = if a == root then some [] else none

start-IsWellFormed : IsWellFormed (bootstrap_mapper root) Usable Left start
start-IsWellFormed = record {
  place = only_root;
  valid = (omega arith, refl, omega arith, omega arith);
  tree = record {
    at_root = refl;
    child = λ t way i e s h. ground arith;
    blank = λ t way i e s h. refl;
  };
  fresh = λ x (from, below). ground arith;
}

map-Maps_example :
    Maps
      (bootstrap_mapper root)
      Usable
      Left
      start
      (page 0xffff800000005000)
      (frame 0x5000)
      leaf_flags
      (map
        (bootstrap_mapper root)
        (page 0xffff800000005000)
        (frame 0x5000)
        leaf_flags
        parent_flags
        all
        start)
map-Maps_example =
    map-Maps (bootstrap_mapper root) Usable Left (bump-Takes root) start (page 0xffff800000005000)
      (frame 0x5000) leaf_flags parent_flags all start-IsWellFormed refl (omega arith) refl refl
      refl refl

map-masked_example :
    map (bootstrap_mapper root) (page 0x5000) (frame 0x5000) leaf_flags parent_flags all start
    ≡ map (bootstrap_mapper root) (page 0x5000) (frame 0x5000) leaf_flags parent_flags 0 start
map-masked_example =
    map-masked (bootstrap_mapper root) (page 0x5000) (frame 0x5000) leaf_flags parent_flags all 0
      start

set_addr_lem_example :
    ((0x5000 % 4096 ≡ 0)
      × (0x5000 < 2 ^ 53)
      × ((e : PageTableEntry) × (set_addr zero_entry 0x5000 ≡ ok e)
          × (get_addr (set_flags e leaf_flags) ≡ 0x5000)
          × (get_flags (set_flags e leaf_flags) ≡ ok leaf_flags)))
    ⊎ ((set_addr zero_entry 0x5000 ≡ panic) × ((0x5000 % 4096 ≢ 0) ⊎ (2 ^ 53 ≤ 0x5000)))
set_addr_lem_example = set_addr_lem 0x5000 leaf_flags (omega arith) refl
