-- ===== src/Mm/Built.antt =====
-- The page tables that `create_page_table_template` of src/mm.rs builds map what its plan says.
use testos.Base.{
  ℕ, ◌<◌, ◌≡◌, refl, arith, subst, Bool, true, false, none, some, List, [], ◌∷◌, ◌++◌, Outcome, ok,
  panic, ◌>>=◌, assert, if◌then◌else◌, ◌==◌, All, All-every, u64_end, bind_assoc, unwrap, ltb,
  u64_max, ◌||◌, ◌-◌,
}
use testos.Addr.{Address}
use testos.Extent
use testos.Extent.{Extent, extent}
use testos.Frame.{Frame}
use testos.FrameRange
use testos.Page.{Page}
use testos.PageRange
use testos.PageRange.Fits.{Fits, IfOk, FirstFits, containing_extent-FirstFits, iter-Fits}
use testos.MemoryMap.{MapEntry}
use testos.Paging.Flags.{PageTableFlags}
use testos.Paging.Action.{Mapper, State}
use testos.Paging.Supply.{Takes, IsWellFormed, mapped}
use testos.Mm.{Symbols, first_mib, kernel_image}
use testos.Mm.Template.{
  Section, data_flags, direct, identity, image, is_mapped_type, map_each, map_memory, map_first_mib,
  map_section, map_allocated, map_sections,
}
use testos.Mm.Each.{MapsEach, collect-same, View, collect, map_each-MapsEach}
use testos.Mm.Placed.{
  direct-eq-memory_place, identity-eq-low_place, image-eq-image_place, direct-IsPlaced,
  image-IsPlaced, IsHigh, first_mib-pages, identity-IsPlaced, All-weaken,
}
use testos.Mm.SectionFlags.{KnownFlags, section_flags-eq, page_flags-KnownFlags}
use testos.Mm.Plan.{
  low_place, memory_place, image_place, Group, page_flags, map_groups, assign_all, memory_plan,
  first_mib_plan, section_plan, allocated_plan, sections_plan,
}
use testos.Mm.Follows.{Follows, follows, no_plan, then-Follows, each-Follows}

from_raw-fits :
    (a l : ℕ) → a < u64_end → IfOk (λ (e : Extent). e.address < u64_end) (Extent.from_raw a l)
unfolding Extent.new Extent.new_checked
from_raw-fits a l h = by_test (l == 0 || ltb (u64_max - a) l)
  where
    by_test :
        (b : Bool)
        → IfOk
            (λ (e : Extent). e.address < u64_end)
            (unwrap (if b then none else some (extent a l)))
    by_test true = tt
    by_test false = h

module _ {ℓ} {S : Type ℓ} (mapper : Mapper S) (Valid : S → Type 0) (Free : S → Address → Type 0)
    (supply : (a : S) → Valid a → Takes mapper Valid Free a) where
  -- What the code and its plan compute alike comes first.
  bind-Follows {κ} :
      {A : Type κ} (view : View) (s : State S) (m : Outcome A) (p : A → Outcome (List Group))
      (k : A → Outcome (State S))
      → ((a : A) → m ≡ ok a → Follows mapper Valid Free view s (p a) (k a))
      → Follows mapper Valid Free view s (m >>= p) (m >>= k)
  bind-Follows view s panic p k next = no_plan refl refl
  bind-Follows view s (ok a) p k next = next a refl

  -- The loops follow the plan of the places that they find.
  place-Follows {κ} :
      {A : Type κ} (place place' : A → Outcome (Page × Frame)) (Q : A → Type 0)
      → ((x : A) → Q x → place x ≡ place' x)
      → (flags : PageTableFlags) (xs : List A) (s : State S) → All Q xs
      → MapsEach mapper Valid Free place flags xs s
      → Follows mapper Valid Free
          (mapped mapper s)
          s
          (collect place' xs >>= λ ps. ok ((flags, ps) ∷ []))
          (map_each mapper place flags xs s)
  place-Follows place place' Q same flags xs s all each =
      subst
        (λ c.
          Follows mapper Valid Free (mapped mapper s) s (c >>= λ ps. ok ((flags, ps) ∷ []))
            (map_each mapper place flags xs s))
        (collect-same place place' Q same xs all)
        (each-Follows mapper Valid Free place flags xs s each)

  frames-Follows :
      (frames : List Frame) (s : State S)
      → IsWellFormed mapper Valid Free s
      → Follows mapper Valid Free
          (mapped mapper s)
          s
          (collect memory_place frames >>= λ ps. ok ((data_flags, ps) ∷ []))
          (map_each mapper direct data_flags frames s)
  frames-Follows frames s well =
      place-Follows direct memory_place (λ _. Unit {0}) (λ f _. direct-eq-memory_place f) data_flags
        frames s (All-every (λ _. tt) frames)
        (map_each-MapsEach mapper Valid Free supply direct data_flags refl refl frames s
          (All-every direct-IsPlaced frames) well)

  pub map_memory-Follows :
      (entries : List MapEntry) (s : State S)
      → IsWellFormed mapper Valid Free s
      → Follows mapper Valid Free
          (mapped mapper s)
          s
          (memory_plan entries)
          (map_memory mapper entries s)
  unfolding memory_plan map_memory assign_all map_groups
  map_memory-Follows [] s well = follows [] s refl refl refl well (λ q. refl)
  map_memory-Follows (e ∷ es) s well =
      bind-Follows (mapped mapper s) s (FrameRange.containing_extent e.extent) _ _ (λ r _.
        bind-Follows (mapped mapper s) s (FrameRange.iter r) _ _ (λ frames _.
          subst
            (λ plan.
              Follows mapper Valid Free (mapped mapper s) s plan
                (map_each mapper direct data_flags frames s >>= map_memory mapper es))
            (bind_assoc (collect memory_place frames) (λ ps. ok ((data_flags, ps) ∷ []))
              (λ g. memory_plan es >>= λ h. ok (g ++ h)))
            (then-Follows mapper Valid Free (mapped mapper s) s
              (collect memory_place frames >>= λ ps. ok ((data_flags, ps) ∷ [])) (memory_plan es)
              (map_each mapper direct data_flags frames s) (map_memory mapper es)
              (frames-Follows frames s well) (λ s' well'. map_memory-Follows es s' well'))))

  pub map_first_mib-Follows :
      (s : State S)
      → IsWellFormed mapper Valid Free s
      → Follows mapper Valid Free (mapped mapper s) s first_mib_plan (map_first_mib mapper s)
  unfolding first_mib_plan map_first_mib
  map_first_mib-Follows s well = bind-Follows (mapped mapper s) s first_mib _ _ (λ e ee.
      bind-Follows (mapped mapper s) s (PageRange.containing_extent e) _ _ (λ r er.
        bind-Follows (mapped mapper s) s (PageRange.iter r) _ _ (λ pages ep.
          let low = first_mib-pages e r pages ee er ep in
          place-Follows identity low_place (λ p. p.start < 0x100000)
            (λ p h. identity-eq-low_place p (omega arith)) data_flags pages s low
            (map_each-MapsEach mapper Valid Free supply identity data_flags refl refl pages s
              (All-weaken (λ p h. identity-IsPlaced p (omega arith)) pages low) well))))

  module _ (symbols : Symbols) (high : IsHigh symbols) where
    map_section-Follows :
        (section : Section) (e : Extent) (s : State S)
        → e.address < u64_end
        → IsWellFormed mapper Valid Free s
        → Follows mapper Valid Free
            (mapped mapper s)
            s
            (section_plan symbols section e)
            (map_section mapper symbols section e s)
    unfolding section_plan map_section
    map_section-Follows section e s fits well = rw (section_flags-eq section) (
        bind-Follows (mapped mapper s) s (page_flags section.writable section.executable) _ _
          (λ flags ef.
            let known =
              subst (IfOk KnownFlags) ef
                (page_flags-KnownFlags section.writable section.executable) in
            bind-Follows (mapped mapper s) s (PageRange.containing_extent e) _ _ (λ r er.
              bind-Follows (mapped mapper s) s (PageRange.iter r) _ _ (λ pages ep.
                let fitting = subst (IfOk (All (Fits 0))) ep (
                  iter-Fits 0 r (
                    subst (IfOk (FirstFits 0)) er
                      (containing_extent-FirstFits 0 e (omega arith) fits))) in
                place-Follows (image symbols) (image_place symbols) (Fits 0)
                  (λ p h. image-eq-image_place symbols p h.1) flags pages s fitting
                  (map_each-MapsEach mapper Valid Free supply (image symbols) flags known.0 known.1
                    pages s (All-weaken (λ p h. image-IsPlaced symbols p high h) pages fitting)
                    well)))))

    nothing-Follows :
        (s : State S)
        → IsWellFormed mapper Valid Free s
        → Follows mapper Valid Free (mapped mapper s) s (ok []) (ok s)
    unfolding assign_all map_groups
    nothing-Follows s well = follows [] s refl refl refl well (λ q. refl)

    choice-Follows :
        (b : Bool) (s : State S) (p p' : Outcome (List Group)) (r r' : Outcome (State S))
        → Follows mapper Valid Free (mapped mapper s) s p r
        → Follows mapper Valid Free (mapped mapper s) s p' r'
        → Follows mapper Valid Free (mapped mapper s) s (if b then p else p') (if b then r else r')
    choice-Follows true s p p' r r' f g = f
    choice-Follows false s p p' r r' f g = g

    map_allocated-Follows :
        (section : Section) (e : Extent) (s : State S)
        → e.address < u64_end
        → IsWellFormed mapper Valid Free s
        → Follows mapper Valid Free
            (mapped mapper s)
            s
            (allocated_plan symbols section e)
            (map_allocated mapper symbols section e s)
    unfolding allocated_plan map_allocated
    map_allocated-Follows section e s fits well =
        bind-Follows (mapped mapper s) s section.in_bootstrap _ _ (λ skipped _.
          choice-Follows skipped s _ _ _ _ (nothing-Follows s well) (
            bind-Follows (mapped mapper s) s kernel_image _ _ (λ area _.
              bind-Follows (mapped mapper s) s (Extent.contains area e) _ _ (λ inside _.
                bind-Follows (mapped mapper s) s (assert inside) _ _ (λ _ _.
                  choice-Follows (is_mapped_type section.section_type) s _ _ _ _
                    (map_section-Follows section e s fits well) (nothing-Follows s well))))))

    pub map_sections-Follows :
        (sections : List Section) (s : State S)
        → All (λ section. section.start_address < u64_end) sections
        → IsWellFormed mapper Valid Free s
        → Follows mapper Valid Free
            (mapped mapper s)
            s
            (sections_plan symbols sections)
            (map_sections mapper symbols sections s)
    unfolding sections_plan map_sections
    map_sections-Follows [] s fits well = nothing-Follows s well
    map_sections-Follows (section ∷ rest) s fits well =
        bind-Follows (mapped mapper s) s (Extent.from_raw section.start_address section.size) _ _
          (λ e ee.
            then-Follows mapper Valid Free (mapped mapper s) s _ (sections_plan symbols rest) _
              (map_sections mapper symbols rest)
              (choice-Follows section.allocated s _ _ _ _
                (map_allocated-Follows section e s
                  (subst (IfOk (λ x. x.address < u64_end)) ee
                    (from_raw-fits section.start_address section.size fits.0))
                  well)
                (nothing-Follows s well))
              (λ s' well'. map_sections-Follows rest s' fits.1 well'))
