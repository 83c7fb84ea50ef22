-- ===== src/Mm/Follows.antt =====
-- How `create_page_table_template` of src/mm.rs follows its plan, and how the parts of it do so one after
-- the other.
use testos.Base.{◌≡◌, refl, sym, ◌∙◌, List, [], ◌∷◌, ◌++◌, Outcome, ok, panic, ◌>>=◌}
use testos.Addr.{Address}
use testos.Frame.{Frame}
use testos.Page.{Page}
use testos.Paging.Flags.{PageTableFlags}
use testos.Paging.Action.{MapError, Result, done, failed, Mapper, State, after}
use testos.Paging.Supply.{IsWellFormed, Refuses, mapped}
use testos.Mm.Template.{map_each}
use testos.Mm.Each.{
  View, map_pages, assign, assign-same, collect, MapsEach, maps_each, stops_placing, stops_mapping,
}
use testos.Mm.Plan.{Group, map_groups, assign_all}

-- The code follows a plan from a state: it maps what the plan says, or it panics since there is no plan,
-- or it panics since one of the pages of the plan, in its turn, cannot be mapped: there the frame
-- allocator refuses.
pub data Follows {ℓ} {S : Type ℓ} (mapper : Mapper S) (Valid : S → Type 0)
    (Free : S → Address → Type 0) (view : View) (s : State S) (plan : Outcome (List Group))
    (r : Outcome (State S)) : Type ℓ where
  follows :
      (gs : List Group) (s' : State S)
      → r ≡ ok s'
      → plan ≡ ok gs
      → map_groups mapper gs s ≡ ok (done tt, s')
      → IsWellFormed mapper Valid Free s'
      → ((q : Page) → mapped mapper s' q ≡ assign_all gs view q)
      → Follows mapper Valid Free view s plan r
  no_plan : r ≡ panic → plan ≡ panic → Follows mapper Valid Free view s plan r
  refused :
      (gs : List Group) (e : MapError) (s' : State S)
      → r ≡ panic
      → plan ≡ ok gs
      → map_groups mapper gs s ≡ ok (failed e, s')
      → Refuses mapper e s'.allocator
      → Follows mapper Valid Free view s plan r

map_groups-append {ℓ} :
    {S : Type ℓ} (mapper : Mapper S) (gs hs : List Group) (s : State S)
    → map_groups mapper (gs ++ hs) s ≡ after (map_groups mapper gs s) (λ _. map_groups mapper hs)
unfolding map_groups
map_groups-append mapper [] hs s = refl
map_groups-append mapper ((flags, ps) ∷ gs) hs s =
    go (map_pages mapper flags ps s) (map_groups-append mapper gs hs)
  where
    go :
        (m : Outcome (Result (Unit {0}) × State _))
        → ((s' : State _)
            → map_groups mapper (gs ++ hs) s'
              ≡ after (map_groups mapper gs s') (λ _. map_groups mapper hs))
        → after m (λ _. map_groups mapper (gs ++ hs))
          ≡ after (after m (λ _. map_groups mapper gs)) (λ _. map_groups mapper hs)
    go panic later = refl
    go (ok (failed e, s')) later = refl
    go (ok (done a, s')) later = later s'

pub assign_all-same :
    (gs : List Group) (v w : View)
    → ((q : Page) → v q ≡ w q)
    → (q : Page) → assign_all gs v q ≡ assign_all gs w q
unfolding assign_all
assign_all-same [] v w same q = same q
assign_all-same ((flags, ps) ∷ rest) v w same q =
    assign_all-same rest (assign flags ps v) (assign flags ps w) (assign-same flags ps v w same) q

pub assign_all-append :
    (gs hs : List Group) (v : View) (q : Page)
    → assign_all (gs ++ hs) v q ≡ assign_all hs (assign_all gs v) q
unfolding assign_all
assign_all-append [] hs v q = refl
assign_all-append ((flags, ps) ∷ rest) hs v q = assign_all-append rest hs (assign flags ps v) q

-- Views that are the same have the same plans.
pub Follows-same {ℓ} :
    {S : Type ℓ} (mapper : Mapper S) (Valid : S → Type 0) (Free : S → Address → Type 0) (v w : View)
    (s : State S) (plan : Outcome (List Group)) (r : Outcome (State S))
    → ((q : Page) → v q ≡ w q)
    → Follows mapper Valid Free v s plan r
    → Follows mapper Valid Free w s plan r
Follows-same mapper Valid Free v w s plan r same (follows gs s' e ep run well new) =
    follows gs s' e ep run well (λ q. new q ∙ assign_all-same gs v w same q)
Follows-same mapper Valid Free v w s plan r same (no_plan e ep) = no_plan e ep
Follows-same mapper Valid Free v w s plan r same (refused gs err s' e ep run why) =
    refused gs err s' e ep run why

module _ {ℓ} {S : Type ℓ} (mapper : Mapper S) (Valid : S → Type 0)
    (Free : S → Address → Type 0) where
  -- The first part is refused a frame; if the second part has no plan, there is none at all.
  refused-Follows :
      (view : View) (s : State S) (p₁ p₂ : Outcome (List Group)) (r : Outcome (State S))
      (k : State S → Outcome (State S)) (gs : List Group) (err : MapError) (s' : State S)
      (others : Outcome (List Group))
      → r ≡ panic
      → p₁ ≡ ok gs
      → map_groups mapper gs s ≡ ok (failed err, s')
      → Refuses mapper err s'.allocator
      → p₂ ≡ others
      → Follows mapper Valid Free view s (p₁ >>= λ g. p₂ >>= λ h. ok (g ++ h)) (r >>= k)
  refused-Follows view s p₁ p₂ r k gs err s' panic er ep run why e =
      no_plan (rw er refl) (rw (ep, e) refl)
  refused-Follows view s p₁ p₂ r k gs err s' (ok hs) er ep run why e =
      refused (gs ++ hs) err s' (rw er refl) (rw (ep, e) refl)
        (map_groups-append mapper gs hs s ∙ rw run refl) why

  -- Two parts of the code, one after the other, follow their plans together.
  pub then-Follows :
      (view : View) (s : State S) (p₁ p₂ : Outcome (List Group)) (r : Outcome (State S))
      (k : State S → Outcome (State S))
      → Follows mapper Valid Free view s p₁ r
      → ((s' : State S)
          → IsWellFormed mapper Valid Free s'
          → Follows mapper Valid Free (mapped mapper s') s' p₂ (k s'))
      → Follows mapper Valid Free view s (p₁ >>= λ g. p₂ >>= λ h. ok (g ++ h)) (r >>= k)
  then-Follows view s p₁ p₂ r k (no_plan er ep) next = no_plan (rw er refl) (rw ep refl)
  then-Follows view s p₁ p₂ r k (refused gs err s' er ep run why) next =
      refused-Follows view s p₁ p₂ r k gs err s' p₂ er ep run why refl
  then-Follows view s p₁ p₂ r k (follows gs s' er ep run well new) next = elim (next s' well) [
    | no_plan er' ep' ↦ no_plan (rw (er, er') refl) (rw (ep, ep') refl)
    | refused hs err s2 er' ep' run' why ↦
        refused (gs ++ hs) err s2 (rw (er, er') refl) (rw (ep, ep') refl)
          (map_groups-append mapper gs hs s ∙ rw run run') why
    | follows hs s2 er' ep' run' well' new' ↦
        follows (gs ++ hs) s2 (rw (er, er') refl) (rw (ep, ep') refl)
          (map_groups-append mapper gs hs s ∙ rw run run') well'
          (λ q.
            new' q
            ∙ assign_all-same hs (mapped mapper s') (assign_all gs view) new q
            ∙ sym (assign_all-append gs hs view q))
  ]

  -- A loop over pages follows the plan of its pages.
  pub each-Follows {κ} :
      {A : Type κ} (place : A → Outcome (Page × Frame)) (flags : PageTableFlags) (xs : List A)
      (s : State S)
      → MapsEach mapper Valid Free place flags xs s
      → Follows mapper Valid Free
          (mapped mapper s)
          s
          (collect place xs >>= λ ps. ok ((flags, ps) ∷ []))
          (map_each mapper place flags xs s)
  unfolding assign_all map_groups
  each-Follows place flags xs s (maps_each ps s' e c run well new) =
      follows ((flags, ps) ∷ []) s' e (rw c refl) (rw run refl) well new
  each-Follows place flags xs s (stops_placing e c) = no_plan e (rw c refl)
  each-Follows place flags xs s (stops_mapping ps err s' e c run why) =
      refused ((flags, ps) ∷ []) err s' e (rw c refl) (rw run refl) why
