-- ===== src/Mm/Whole.antt =====
-- `create_page_table_template` of src/mm.rs as a whole, from the empty table on.
use testos.Base.{
  ◌<◌, ◌≡◌, ◌≢◌, refl, arith, Option, none, some, List, [], Outcome, ◌>>=◌, if◌then◌else◌, ◌==◌,
  All, u64_end,
}
use testos.Addr.{Address}
use testos.Page.{Page, l4_index}
use testos.MemoryMap.{MapEntry}
use testos.Paging.{zero_table}
use testos.Paging.Action.{Memory, Mapper, State, state, write_table}
use testos.Paging.Walk.{Way, IsTree, lookup, points_to}
use testos.Paging.Supply.{Takes, IsWellFormed, mapped}
use testos.Mm.{Symbols}
use testos.Mm.Template.{
  Section, map_first_mib, map_sections, create_page_table_template, map_memory,
}
use testos.Mm.Each.{View}
use testos.Mm.Placed.{IsHigh}
use testos.Mm.Plan.{memory_plan, first_mib_plan, sections_plan, template_plan}
use testos.Mm.Follows.{Follows, Follows-same, then-Follows}
use testos.Mm.Built.{map_memory-Follows, map_first_mib-Follows, map_sections-Follows}

abbrev pub nothing_mapped : View
nothing_mapped q = none

abbrev pub cleared_root : Memory → Address → Memory
cleared_root m root = write_table m root zero_table

-- The state in which the root table is empty.
abbrev pub at_start {ℓ} : {S : Type ℓ} → Mapper S → State S → State S
at_start mapper s = state (cleared_root s.memory mapper.level_4) s.allocator

only_root : Address → Address → Option Way
only_root root a = if a == root then some [] else none

cleared_root-IsTree :
    (translator : Address → Outcome (Option Address)) (m : Memory) (root : Address)
    → IsTree translator root (cleared_root m root) (only_root root)
unfolding only_root
cleared_root-IsTree translator m root = record {
  at_root = ground arith;
  child = λ t way i e s h. ground arith;
  blank = λ t way i e s h. ground arith;
}

cleared_root-lookup :
    (translator : Address → Outcome (Option Address)) (m : Memory) (root : Address) (q : Page)
    → lookup translator root (cleared_root m root) q ≡ none
cleared_root-lookup translator m root q = rw nothing_here refl
  where
    nothing_here : points_to translator (cleared_root m root root (l4_index q)) ≡ none
    nothing_here = ground arith

-- With a frame allocator that gives only fresh frames, none of them the root table's, and a kernel image
-- in the last 2^48 bytes: the tables that create_page_table_template leaves map exactly the pages of its
-- plan to the frames there with the flags there, in order, and nothing else; the plan states flags and
-- frames apart from the code. If it panics, then there
-- is no plan, or mapping the pages of the plan from the empty table on, in order, comes to one at which
-- the frame allocator has no frame or gives one without an address.
pub create_page_table_template-Follows {ℓ} :
    {S : Type ℓ} (mapper : Mapper S) (Valid : S → Type 0) (Free : S → Address → Type 0)
    (supply : (a : S) → Valid a → Takes mapper Valid Free a) (symbols : Symbols)
    (sections : List Section) (memory_map : List MapEntry) (s : State S)
    → IsHigh symbols
    → All (λ section. section.start_address < u64_end) sections
    → Valid s.allocator
    → ((x : Address) → Free s.allocator x → x ≢ mapper.level_4)
    → Follows mapper Valid Free nothing_mapped
        (at_start mapper s)
        (template_plan symbols sections memory_map)
        (create_page_table_template mapper symbols sections memory_map s)
unfolding template_plan create_page_table_template only_root
create_page_table_template-Follows mapper Valid Free supply symbols sections memory_map s high fits
      valid apart =
    let start = at_start mapper s in
    let well : IsWellFormed mapper Valid Free start = record {
      place = only_root mapper.level_4;
      valid = valid;
      tree = cleared_root-IsTree mapper.translator s.memory mapper.level_4;
      fresh = λ x free. ground (arith, apart x free);
    } in
    Follows-same mapper Valid Free (mapped mapper start) nothing_mapped start _ _
      (cleared_root-lookup mapper.translator s.memory mapper.level_4)
      (then-Follows mapper Valid Free (mapped mapper start) start (memory_plan memory_map) _
        (map_memory mapper memory_map start)
        (λ s1. map_first_mib mapper s1 >>= λ s2. map_sections mapper symbols sections s2)
        (map_memory-Follows mapper Valid Free supply memory_map start well)
        (λ s1 well1.
          then-Follows mapper Valid Free (mapped mapper s1) s1 first_mib_plan
            (sections_plan symbols sections) (map_first_mib mapper s1)
            (map_sections mapper symbols sections)
            (map_first_mib-Follows mapper Valid Free supply s1 well1)
            (λ s2 well2.
              map_sections-Follows mapper Valid Free supply symbols high sections s2 fits well2)))
