-- ===== src/Paging/Level.antt =====
-- `next_level_alloc` of src/mm/paging.rs: it arrives at a table of the next level or returns an
-- error, and leaves a tree of tables that maps what it did before.
use testos.Base.{
  ℕ, ◌%◌, ◌^◌, ◌<◌, ◌≡◌, ◌≢◌, inl, inr, refl, ap, sym, ◌∙◌, arith, true, false, none, some, ◌∷◌,
  length, ok, bit_and, bit_or, Bool-cases,
}
use native.Mathlib.Nat.{mod-eq_of_lt}
use testos.Base.Masks.{bit_or-zero_left}
use testos.Addr.{Address}
use testos.Addr.Align.{is_aligned_to-ok}
use testos.Frame.{Frame}
use testos.Paging.Flags
use testos.Paging.Flags.{PageTableFlags}
use testos.Paging.{PageTableEntry, entry, zero_table, set_addr, get_addr, set_flags}
use testos.Paging.Action.{
  frame_allocation_failed, translation_failed, done, failed, Mapper, State, state, write_entry,
  write_table, Memory,
}
use testos.Paging.Mapper.{translate, follow, add_table, next_level_alloc}
use testos.Paging.Entry.{
  IsFlags, is_present, get_flags-ok, contains-present, get_addr-set_flags, is_present-set_flags,
  set_present, IsFlags-set, IsFlags-present, set_addr-ok, addr_of_raw,
}
use testos.Paging.Walk.{Way, IsTable, table_at-placed, table_at-next}
use testos.Paging.Supply.{
  Takes, is_empty, no_address, gives, IsWellFormed, reached, Arrives, arrives, fails,
}
use testos.Paging.Agree.{IsReplaced, flags-table_at, flags-lookup, flags-IsTree}
use testos.Paging.Linked.{IsLinked, add_place, linked-keeps, linked-lookup, linked-IsTree}

module _ {ℓ} {S : Type ℓ} (mapper : Mapper S) where
  translate-ok :
      (phys w : Address) (s : State S)
      → mapper.translator phys ≡ ok (some w)
      → IsTable w
      → translate mapper phys s ≡ ok (done w, s)
  unfolding translate
  translate-ok phys w s e t =
      rw (e, is_aligned_to-ok 12 w (omega arith) t.fits) (ground (arith, t.aligned, t.not_null))

  translate-none :
      (phys : Address) (s : State S)
      → mapper.translator phys ≡ ok none
      → translate mapper phys s ≡ ok (failed translation_failed, s)
  unfolding translate
  translate-none phys s e = rw e refl

pub write_entry-IsReplaced :
    (m : Memory) (t : Address) (i : ℕ) (e : PageTableEntry)
    → IsReplaced m (write_entry m t i e) t i e
write_entry-IsReplaced m t i e = record {
  here = ground arith;
  elsewhere = λ x j other. ground arith;
}

module _ {ℓ} {S : Type ℓ} (mapper : Mapper S) (Valid : S → Type 0) (Free : S → Address → Type 0)
    (s : State S) (t : Address) (i : ℕ) (way : Way) (flags mask_flags : PageTableFlags)
    (well : IsWellFormed mapper Valid Free s) (arrived : reached mapper s way ≡ some t)
    (short : length way < 3) (hf : IsFlags flags) (hm : IsFlags mask_flags) where
  abbrev old_entry : PageTableEntry
  old_entry = s.memory t i

  abbrev flagged : PageTableEntry
  flagged =
      set_flags old_entry (bit_or (bit_and (bit_and old_entry.raw Flags.all) mask_flags) flags)

  placed : well.place t ≡ some way
  placed = table_at-placed well.tree way (omega arith) t arrived

  follow-eq :
      (w : Address)
      → mapper.translator (get_addr old_entry) ≡ ok (some w)
      → IsTable w
      → follow mapper t i flags mask_flags s
        ≡ ok (done w, state (write_entry s.memory t i flagged) s.allocator)
  unfolding follow
  follow-eq w e table =
      rw
        (
          get_flags-ok old_entry,
          (write_entry-IsReplaced s.memory t i flagged).here,
          get_addr-set_flags old_entry
              (bit_or (bit_and (bit_and old_entry.raw Flags.all) mask_flags) flags)
              (IsFlags-set (bit_and old_entry.raw Flags.all) mask_flags flags hm hf),
        )
        (translate-ok mapper (get_addr old_entry) w
          (state (write_entry s.memory t i flagged) s.allocator) e table)

  follow-Arrives :
      is_present old_entry ≡ true
      → Arrives mapper Valid Free s (i ∷ way) (follow mapper t i flags mask_flags s)
  follow-Arrives present =
      let c = well.tree.child t way i placed short present in
      let g = bit_or (bit_and (bit_and old_entry.raw Flags.all) mask_flags) flags in
      let kept =
        get_addr-set_flags old_entry g
          (IsFlags-set (bit_and old_entry.raw Flags.all) mask_flags flags hm hf) in
      let still = is_present-set_flags old_entry g present in
      let m' = write_entry s.memory t i flagged in
      let change = write_entry-IsReplaced s.memory t i flagged in
      arrives c.0 (state m' s.allocator) (follow-eq c.0 c.1 c.2)
        (record {
          place = well.place;
          valid = well.valid;
          tree = flags-IsTree well.tree m' t way i flagged placed short present still kept change;
          fresh = well.fresh;
        })
        (table_at-next mapper.translator mapper.level_4 m' way t i c.0
          (flags-table_at well.tree m' t way i flagged placed short present still kept change way
              (omega arith)
            ∙ arrived)
          (ap is_present change.here ∙ still)
          (ap (λ e. mapper.translator (get_addr e)) change.here ∙ ap mapper.translator kept ∙ c.1))
        (flags-lookup well.tree m' t way i flagged placed short present still kept change)

  module _ (f : Frame) (rest : S) (w : Address)
      (taken : mapper.frame_allocator s.allocator ≡ ok (some f, rest)) (al : f.start % 4096 ≡ 0)
      (fits : f.start < 2 ^ 48) (leads : mapper.translator f.start ≡ ok (some w))
      (table : IsTable w) (free : well.place w ≡ none) (absent : is_present old_entry ≡ false) where
    abbrev linked_entry : PageTableEntry
    linked_entry = set_flags (entry f.start) (bit_or flags Flags.present)

    abbrev cleared : Memory
    cleared = write_table s.memory w zero_table

    abbrev linked : Memory
    linked = write_entry (write_entry cleared t i (entry f.start)) t i linked_entry

    apart : w ≢ t
    apart wt = absurd (ground (arith, sym free ∙ ap well.place wt ∙ placed))

    set_addr-linked : set_addr (cleared t i) f.start ≡ ok (entry f.start)
    set_addr-linked =
        set_addr-ok (cleared t i) f.start al (omega arith)
        ∙ ap (λ x. ok (entry (bit_or x f.start)))
            (ground (arith, apart, well.tree.blank t way i placed short absent))
        ∙ ap (λ x. ok (entry x)) (bit_or-zero_left f.start)

    add_table-eq : add_table mapper t i flags s ≡ ok (done w, state linked rest)
    unfolding add_table
    add_table-eq =
        rw (taken, translate-ok mapper f.start w (state s.memory rest) leads table, set_addr-linked)
          refl

    linked-IsLinked : IsLinked s.memory linked t i linked_entry w
    linked-IsLinked = record {
      here = ground arith;
      new_table = λ j. ground (arith, apart);
      elsewhere = λ x j old other. ground arith;
    }

    add_table-Arrives :
        Valid rest
        → ((x : Address) → Free rest x → Free s.allocator x × (x ≢ w))
        → Arrives mapper Valid Free s (i ∷ way) (add_table mapper t i flags s)
    add_table-Arrives valid_rest later =
        let now = set_present (entry f.start) flags in
        let at_w : mapper.translator (get_addr linked_entry) ≡ ok (some w) =
          ap mapper.translator (
            get_addr-set_flags (entry f.start) (bit_or flags Flags.present)
              (IsFlags-present flags hf)
            ∙ addr_of_raw f.start al
            ∙ mod-eq_of_lt fits)
          ∙ leads in
        let change = linked-IsLinked in
        arrives w (state linked rest) add_table-eq
          (record {
            valid = valid_rest;
            place = add_place well.place w (i ∷ way);
            tree =
                linked-IsTree well.tree linked t way i linked_entry w placed short absent now at_w
                  table free change;
            fresh = λ x left. ground (arith, well.fresh x (later x left).0, (later x left).1);
          })
          (table_at-next mapper.translator mapper.level_4 linked way t i w
            (linked-keeps well.tree linked t way i linked_entry w placed short absent now at_w table
              free change way (omega arith) t arrived)
            (ap is_present change.here ∙ now)
            (ap (λ e. mapper.translator (get_addr e)) change.here ∙ at_w))
          (linked-lookup well.tree linked t way i linked_entry w placed short absent now at_w table
            free change)

  -- A call that gets no frame or no address for it leaves the memory alone.
  stays :
      (rest : S)
      → Valid rest
      → ((x : Address) → Free rest x → Free s.allocator x)
      → IsWellFormed mapper Valid Free (state s.memory rest)
  stays rest valid later = record {
    place = well.place;
    valid = valid;
    tree = well.tree;
    fresh = λ x left. well.fresh x (later x left);
  }

  add_table-Arrives_or_fails :
      is_present old_entry ≡ false
      → Takes mapper Valid Free s.allocator
      → Arrives mapper Valid Free s (i ∷ way) (add_table mapper t i flags s)
  unfolding add_table
  add_table-Arrives_or_fails absent (is_empty rest taken valid later) =
      fails frame_allocation_failed (state s.memory rest) (rw taken refl) (s.allocator, taken)
        (stays rest valid later) (λ p. refl)
  add_table-Arrives_or_fails absent (no_address f rest taken unknown valid later) =
      fails translation_failed (state s.memory rest)
        (rw (taken, translate-none mapper f.start (state s.memory rest) unknown) refl)
        (s.allocator, f, taken, unknown) (stays rest valid later) (λ p. refl)
  add_table-Arrives_or_fails absent (gives f rest w taken al fits leads table free valid later) =
      add_table-Arrives f rest w taken al fits leads table (well.fresh w free) absent valid later

  -- Whatever the frame allocator does, the call arrives at the table that the entry leads to, or
  -- fails.
  pub next_level_alloc-Arrives :
      Takes mapper Valid Free s.allocator
      → Arrives mapper Valid Free s (i ∷ way) (next_level_alloc mapper t i flags mask_flags s)
  unfolding next_level_alloc
  next_level_alloc-Arrives takes = elim (Bool-cases (is_present old_entry)) [
    | inl present ↦
        rw (get_flags-ok old_entry, contains-present old_entry, present) (follow-Arrives present)
    | inr absent ↦
        rw (get_flags-ok old_entry, contains-present old_entry, absent)
          (add_table-Arrives_or_fails absent takes)
  ]
