-- ===== src/Paging/Map.antt =====
-- `Mapper::map` of src/mm/paging.rs: as far as the walk can tell it puts one page into a map.
use native.Mathlib.Nat.{mod-eq_of_lt}
use testos.Base.{
  ◌%◌, ◌^◌, ◌<◌, ◌≡◌, refl, ap, ◌∙◌, arith, true, some, ◌∷◌, [], Outcome, ok, if◌then◌else◌,
}
use testos.Base.Bits.{bit_or_step}
use testos.Base.Masks.{bit_or-zero_left}
use testos.Addr.{Address}
use testos.Frame.{Frame}
use testos.Page.{Page, l4_index, l3_index, l2_index, l1_index}
use testos.Paging.Flags.{PageTableFlags}
use testos.Paging.{leaf_entry, PageTableEntry, entry, zero_entry, get_addr, set_flags, get_flags}
use testos.Paging.Action.{
  MapError, Result, done, failed, Mapper, State, state, Action, after, store, write_entry,
}
use testos.Paging.Mapper.{map}
use testos.Paging.Entry.{
  IsFlags, is_present, get_addr-set_flags, set_addr-ok, addr_of_raw, flags_of_raw,
}
use testos.Paging.Walk.{Way, way_to, same_entry}
use testos.Paging.Supply.{Takes, IsWellFormed, mapped, reached, Refuses, Arrives, arrives, fails}
use testos.Paging.Level.{next_level_alloc-Arrives, write_entry-IsReplaced}
use testos.Paging.Leaf.{leaf-IsTree, leaf-lookup}

-- The entry for a frame.
abbrev pub leaf : Frame → PageTableFlags → PageTableEntry
leaf f flags = set_flags (entry f.start) flags

-- The result of mapping `p` to `f` from the state `s`.
pub data Maps {ℓ} {S : Type ℓ} (mapper : Mapper S) (Valid : S → Type 0)
    (Free : S → Address → Type 0) (s : State S) (p : Page) (f : Frame) (flags : PageTableFlags)
    (r : Outcome (Result (Unit {0}) × State S)) : Type ℓ where
  maps :
      (s' : State S)
      → r ≡ ok (done tt, s')
      → IsWellFormed mapper Valid Free s'
      → get_addr (leaf f flags) ≡ f.start
      → get_flags (leaf f flags) ≡ ok flags
      → ((q : Page)
          → mapped mapper s' q
            ≡ (if same_entry p q then some (leaf f flags) else mapped mapper s q))
      → Maps mapper Valid Free s p f flags r
  maps_nothing :
      (e : MapError) (s' : State S)
      → r ≡ ok (failed e, s')
      → Refuses mapper e s'.allocator
      → IsWellFormed mapper Valid Free s'
      → ((q : Page) → mapped mapper s' q ≡ mapped mapper s q)
      → Maps mapper Valid Free s p f flags r

module _ {ℓ} {S : Type ℓ} (mapper : Mapper S) (Valid : S → Type 0) (Free : S → Address → Type 0)
    (p : Page) (f : Frame) (flags : PageTableFlags) where
  -- What holds from a state holds from one that maps the same.
  Maps-before :
      (s s₀ : State S) (r : Outcome (Result (Unit {0}) × State S))
      → ((q : Page) → mapped mapper s q ≡ mapped mapper s₀ q)
      → Maps mapper Valid Free s p f flags r
      → Maps mapper Valid Free s₀ p f flags r
  Maps-before s s₀ r same (maps s' er well ea ef new) =
      maps s' er well ea ef
        (λ q. new q ∙ ap (λ o. if same_entry p q then some (leaf f flags) else o) (same q))
  Maps-before s s₀ r same (maps_nothing e s' er why well new) =
      maps_nothing e s' er why well (λ q. new q ∙ same q)

  -- One level, and what follows it.
  after-Maps :
      (s : State S) (way : Way) (r : Outcome (Result Address × State S))
      (k : Address → Action S (Unit {0}))
      → Arrives mapper Valid Free s way r
      → ((w : Address) (s' : State S)
          → IsWellFormed mapper Valid Free s'
          → reached mapper s' way ≡ some w
          → Maps mapper Valid Free s' p f flags (k w s'))
      → Maps mapper Valid Free s p f flags (after r k)
  after-Maps s way r k (arrives w s' er well up same) next =
      rw er (Maps-before s' s (k w s') same (next w s' well up))
  after-Maps s way r k (fails e s' er why well same) next =
      maps_nothing e s' (rw er refl) why well same

leaf_entry-ok :
    (f : Frame) (flags : PageTableFlags)
    → f.start % 4096 ≡ 0
    → f.start < 2 ^ 48
    → leaf_entry f flags ≡ ok (set_flags (entry f.start) flags)
unfolding leaf_entry
leaf_entry-ok f flags al fits =
    rw (set_addr-ok zero_entry f.start al (omega arith), bit_or-zero_left f.start) refl

is_present-leaf :
    (f : Frame) (flags : PageTableFlags)
    → f.start % 4096 ≡ 0
    → flags % 2 ≡ 1
    → is_present (set_flags (entry f.start) flags) ≡ true
unfolding set_flags
is_present-leaf f flags al on = ground (arith, bit_or_step f.start flags)

store-Maps {ℓ} :
    {S : Type ℓ} (mapper : Mapper S) (Valid : S → Type 0) (Free : S → Address → Type 0)
    (s : State S) (p : Page) (f : Frame) (flags : PageTableFlags) (t : Address)
    → IsWellFormed mapper Valid Free s
    → reached mapper s (way_to p) ≡ some t
    → f.start % 4096 ≡ 0
    → f.start < 2 ^ 48
    → IsFlags flags
    → flags % 2 ≡ 1
    → Maps mapper Valid Free s p f flags (store t (l1_index p) (set_flags (entry f.start) flags) s)
store-Maps mapper Valid Free s p f flags t well up al fits hf on =
    let e = set_flags (entry f.start) flags in
    let m' = write_entry s.memory t (l1_index p) e in
    let change = write_entry-IsReplaced s.memory t (l1_index p) e in
    let present = is_present-leaf f flags al on in
    maps (state m' s.allocator) refl
      (record {
        place = well.place;
        valid = well.valid;
        tree = leaf-IsTree well.tree m' p t e up present change;
        fresh = well.fresh;
      })
      (get_addr-set_flags (entry f.start) flags hf ∙ addr_of_raw f.start al ∙ mod-eq_of_lt fits)
      (flags_of_raw f.start flags al (omega arith) hf)
      (leaf-lookup well.tree m' p t e up present change)

-- With a frame allocator that gives only fresh frames, from a memory in which the tables form a
-- tree, `map` of a frame below 2^48 with flags that hold PRESENT returns, and leaves such a memory:
-- either it maps the page by an entry with the frame's address and exactly these flags, and every
-- page with other table indices as before, or the frame allocator gave no
-- frame, or one without an address, and it returns the error that says so and maps every page as
-- before.
pub map-Maps {ℓ} :
    {S : Type ℓ} (mapper : Mapper S) (Valid : S → Type 0) (Free : S → Address → Type 0)
    (supply : (a : S) → Valid a → Takes mapper Valid Free a) (s : State S) (p : Page) (f : Frame)
    (leaf_flags parent_set_flags parent_mask_flags : PageTableFlags)
    → IsWellFormed mapper Valid Free s
    → f.start % 4096 ≡ 0
    → f.start < 2 ^ 48
    → IsFlags leaf_flags
    → leaf_flags % 2 ≡ 1
    → IsFlags parent_set_flags
    → IsFlags parent_mask_flags
    → Maps mapper Valid Free s p f leaf_flags
        (map mapper p f leaf_flags parent_set_flags parent_mask_flags s)
unfolding map
map-Maps mapper Valid Free supply s p f flags' flags mask well al fits hl on hf hm =
    after-Maps mapper Valid Free p f flags' s (l4_index p ∷ []) _ _
      (next_level_alloc-Arrives mapper Valid Free s mapper.level_4 (l4_index p) [] flags mask well
        refl (omega arith) hf hm (supply s.allocator well.valid))
      (λ l3 s3 well3 up3.
        after-Maps mapper Valid Free p f flags' s3 (l3_index p ∷ l4_index p ∷ []) _ _
          (next_level_alloc-Arrives mapper Valid Free s3 l3 (l3_index p) (l4_index p ∷ []) flags
            mask well3 up3 (omega arith) hf hm (supply s3.allocator well3.valid))
          (λ l2 s2 well2 up2.
            after-Maps mapper Valid Free p f flags' s2 (way_to p) _ _
              (next_level_alloc-Arrives mapper Valid Free s2 l2 (l2_index p)
                (l3_index p ∷ l4_index p ∷ []) flags mask well2 up2 (omega arith) hf hm
                (supply s2.allocator well2.valid))
              (λ l1 s1 well1 up1.
                rw (leaf_entry-ok f flags' al fits)
                  (store-Maps mapper Valid Free s1 p f flags' l1 well1 up1 al fits hl on))))
