-- ===== src/Mm/Each.antt =====
-- The loops of `create_page_table_template` in src/mm.rs that map one page after the other: what is
-- mapped in the end is what was mapped, with the pages of the loop put in, in order.
use testos.Base.{
  ◌%◌, ◌^◌, ◌<◌, ◌≡◌, refl, ap, ◌∙◌, Option, some, List, [], ◌∷◌, Outcome, ok, panic, ◌>>=◌, All,
  if◌then◌else◌, All,
}
use testos.Addr.{Address}
use testos.Frame.{Frame}
use testos.Page.{Page}
use testos.Paging.Flags.{PageTableFlags, all}
use testos.Paging.{PageTableEntry}
use testos.Paging.Action.{MapError, done, failed, Mapper, State, Action, after}
use testos.Paging.Mapper.{map}
use testos.Paging.Entry.{IsFlags}
use testos.Paging.Walk.{same_entry}
use testos.Paging.Supply.{Takes, IsWellFormed, Refuses, mapped}
use testos.Paging.Map.{leaf, maps, maps_nothing, map-Maps}
use testos.Mm.Template.{parent_flags, map_each}

-- What is mapped: the leaf entry of each page.
abbrev pub View : Type 0
View = Page → Option PageTableEntry

abbrev pub assign_one : PageTableFlags → Page → Frame → View → View
assign_one flags p f view q = if same_entry p q then some (leaf f flags) else view q

-- The view with the pages mapped to the frames, one after the other.
unfoldable pub assign : PageTableFlags → List (Page × Frame) → View → View
assign flags [] view = view
assign flags ((p, f) ∷ rest) view = assign flags rest (assign_one flags p f view)

pub assign-same :
    (flags : PageTableFlags) (ps : List (Page × Frame)) (v w : View)
    → ((q : Page) → v q ≡ w q)
    → (q : Page) → assign flags ps v q ≡ assign flags ps w q
unfolding assign
assign-same flags [] v w same q = same q
assign-same flags ((p, f) ∷ rest) v w same q =
    assign-same flags rest (assign_one flags p f v) (assign_one flags p f w)
      (λ x. ap (λ o. if same_entry p x then some (leaf f flags) else o) (same x)) q

-- The pages and frames that a loop over `xs` maps.
unfoldable pub collect {κ} :
    {A : Type κ} → (A → Outcome (Page × Frame)) → List A → Outcome (List (Page × Frame))
collect place [] = ok []
collect place (x ∷ xs) = do pf ← place x; rest ← collect place xs; ok (pf ∷ rest)

pub collect-same {κ} :
    {A : Type κ} (place place' : A → Outcome (Page × Frame)) (Q : A → Type 0)
    → ((x : A) → Q x → place x ≡ place' x)
    → (xs : List A) → All Q xs
    → collect place xs ≡ collect place' xs
unfolding collect
collect-same place place' Q same [] h = refl
collect-same place place' Q same (x ∷ xs) h =
    rw (same x h.0, collect-same place place' Q same xs h.1) refl

-- A frame that an entry can hold, or a panic before it is mapped.
pub data IsPlaced (r : Outcome (Page × Frame)) : Type 0 where
  placed :
      (p : Page) (f : Frame) → r ≡ ok (p, f) → f.start % 4096 ≡ 0 → f.start < 2 ^ 48 → IsPlaced r
  not_placed : r ≡ panic → IsPlaced r

-- Pages mapped to frames with the same flags, one after the other, up to the first error.
unfoldable pub map_pages {ℓ} :
    {S : Type ℓ} → Mapper S → PageTableFlags → List (Page × Frame) → Action S (Unit {0})
map_pages mapper flags [] s = ok (done tt, s)
map_pages mapper flags ((p, f) ∷ ps) s =
    after (map mapper p f flags parent_flags all s) (λ _. map_pages mapper flags ps)

pub data MapsEach {ℓ κ} {S : Type ℓ} {A : Type κ} (mapper : Mapper S) (Valid : S → Type 0)
    (Free : S → Address → Type 0) (place : A → Outcome (Page × Frame)) (flags : PageTableFlags)
    (xs : List A) (s : State S) : Type (ℓ ⊔ κ) where
  maps_each :
      (ps : List (Page × Frame)) (s' : State S)
      → map_each mapper place flags xs s ≡ ok s'
      → collect place xs ≡ ok ps
      → map_pages mapper flags ps s ≡ ok (done tt, s')
      → IsWellFormed mapper Valid Free s'
      → ((q : Page) → mapped mapper s' q ≡ assign flags ps (mapped mapper s) q)
      → MapsEach mapper Valid Free place flags xs s
  stops_placing :
      map_each mapper place flags xs s ≡ panic
      → collect place xs ≡ panic
      → MapsEach mapper Valid Free place flags xs s
  stops_mapping :
      (ps : List (Page × Frame)) (e : MapError) (s' : State S)
      → map_each mapper place flags xs s ≡ panic
      → collect place xs ≡ ok ps
      → map_pages mapper flags ps s ≡ ok (failed e, s')
      → Refuses mapper e s'.allocator
      → MapsEach mapper Valid Free place flags xs s

module _ {ℓ κ} {S : Type ℓ} {A : Type κ} (mapper : Mapper S) (Valid : S → Type 0)
    (Free : S → Address → Type 0) (supply : (a : S) → Valid a → Takes mapper Valid Free a)
    (place : A → Outcome (Page × Frame)) (flags : PageTableFlags) (known : IsFlags flags)
    (on : flags % 2 ≡ 1) where
  -- After a page is mapped, the others.
  after_one :
      (x : A) (xs : List A) (p : Page) (f : Frame) (s s' : State S)
      → place x ≡ ok (p, f)
      → map mapper p f flags parent_flags all s ≡ ok (done tt, s')
      → ((q : Page) → mapped mapper s' q ≡ assign_one flags p f (mapped mapper s) q)
      → MapsEach mapper Valid Free place flags xs s'
      → MapsEach mapper Valid Free place flags (x ∷ xs) s
  unfolding map_each collect assign map_pages
  after_one x xs p f s s' ep em new (maps_each ps s2 e c run well view) =
      maps_each ((p, f) ∷ ps) s2 (rw (ep, em) e) (rw (ep, c) refl) (rw em run) well (λ q.
        view q
        ∙ assign-same flags ps (mapped mapper s') (assign_one flags p f (mapped mapper s)) new q)
  after_one x xs p f s s' ep em new (stops_placing e c) =
      stops_placing (rw (ep, em) e) (rw (ep, c) refl)
  after_one x xs p f s s' ep em new (stops_mapping ps err s2 e c run why) =
      stops_mapping ((p, f) ∷ ps) err s2 (rw (ep, em) e) (rw (ep, c) refl) (rw em run) why

  -- The first page cannot be mapped.
  stops_here :
      (x : A) (xs : List A) (p : Page) (f : Frame) (s s' : State S) (err : MapError)
      (others : Outcome (List (Page × Frame)))
      → place x ≡ ok (p, f)
      → map mapper p f flags parent_flags all s ≡ ok (failed err, s')
      → Refuses mapper err s'.allocator
      → collect place xs ≡ others
      → MapsEach mapper Valid Free place flags (x ∷ xs) s
  unfolding map_each collect map_pages
  stops_here x xs p f s s' err panic ep em why c =
      stops_placing (rw (ep, em) refl) (rw (ep, c) refl)
  stops_here x xs p f s s' err (ok ps) ep em why c =
      stops_mapping ((p, f) ∷ ps) err s' (rw (ep, em) refl) (rw (ep, c) refl) (rw em refl) why

  pub map_each-MapsEach :
      (xs : List A) (s : State S)
      → All (λ x. IsPlaced (place x)) xs
      → IsWellFormed mapper Valid Free s
      → MapsEach mapper Valid Free place flags xs s
  unfolding map_each collect assign map_pages
  map_each-MapsEach [] s sound well = maps_each [] s refl refl refl well (λ q. refl)
  map_each-MapsEach (x ∷ xs) s sound well = elim sound.0 [
    | not_placed e ↦ stops_placing (rw e refl) (rw e refl)
    | placed p f e al fits ↦
        elim (map-Maps mapper Valid Free supply s p f flags parent_flags all well al fits known on
          refl refl) [
            | maps s' em well' _ _ new ↦
                after_one x xs p f s s' e em new (map_each-MapsEach xs s' sound.1 well')
            | maps_nothing err s' em why well' _ ↦
                stops_here x xs p f s s' err (collect place xs) e em why refl
          ]
  ]
