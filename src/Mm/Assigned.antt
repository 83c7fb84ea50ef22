-- ===== src/Mm/Assigned.antt =====
-- A plan of src/mm.rs that maps a page to one entry only: where that entry ends up in the page tables.
use testos.Base.{
  ◌≡◌, inl, inr, refl, ◌∙◌, Bool, true, false, Option, some, List, [], ◌∷◌, All, Any, if◌then◌else◌,
}
use testos.Frame.{Frame}
use testos.Page.{Page}
use testos.Paging.{PageTableEntry}
use testos.Paging.Flags.{PageTableFlags}
use testos.Paging.Walk.{same_entry}
use testos.Paging.Map.{leaf}
use testos.Mm.Each.{View, assign, assign_one}
use testos.Mm.Plan.{Group, assign_all}

module _ (q : Page) (l : PageTableEntry) where
  -- Where pages map `q`, they map it to `l`.
  abbrev pub Agree : Group → Type 0
  Agree (flags, ps) = All (λ (p, f). same_entry p q ≡ true → leaf f flags ≡ l) ps

  -- One of the pages maps `q` to `l`.
  abbrev pub Hit : Group → Type 0
  Hit (flags, ps) = Any (λ (p, f). (same_entry p q ≡ true) × (leaf f flags ≡ l)) ps

  put :
      (b : Bool) (e : PageTableEntry) (o : Option PageTableEntry)
      → (b ≡ true → e ≡ l)
      → o ≡ some l
      → (if b then some e else o) ≡ some l
  put true e o agree kept = rw (agree refl) refl
  put false e o agree kept = kept

  assign-keep :
      (flags : PageTableFlags) (ps : List (Page × Frame)) (view : View)
      → Agree (flags, ps)
      → view q ≡ some l
      → assign flags ps view q ≡ some l
  unfolding assign
  assign-keep flags [] view agree h = h
  assign-keep flags ((p, f) ∷ rest) view agree h =
      assign-keep flags rest (assign_one flags p f view) agree.1
        (put (same_entry p q) (leaf f flags) (view q) agree.0 h)

  assign-Hit :
      (flags : PageTableFlags) (ps : List (Page × Frame)) (view : View)
      → Agree (flags, ps)
      → Hit (flags, ps)
      → assign flags ps view q ≡ some l
  unfolding assign
  assign-Hit flags [] view agree h = absurd h
  assign-Hit flags ((p, f) ∷ rest) view agree (inl (same, eq)) =
      assign-keep flags rest (assign_one flags p f view) agree.1 (rw (same, eq) refl)
  assign-Hit flags ((p, f) ∷ rest) view agree (inr later) =
      assign-Hit flags rest (assign_one flags p f view) agree.1 later

  pub assign_all-keep :
      (gs : List Group) (view : View)
      → All Agree gs
      → view q ≡ some l
      → assign_all gs view q ≡ some l
  unfolding assign_all
  assign_all-keep [] view agree h = h
  assign_all-keep ((flags, ps) ∷ rest) view agree h =
      assign_all-keep rest (assign flags ps view) agree.1 (assign-keep flags ps view agree.0 h)

  -- A page that the plan maps somewhere, and nowhere else, is mapped in the end.
  pub assign_all-Hit :
      (gs : List Group) (view : View) → All Agree gs → Any Hit gs → assign_all gs view q ≡ some l
  unfolding assign_all
  assign_all-Hit [] view agree h = absurd h
  assign_all-Hit ((flags, ps) ∷ rest) view agree (inl here) =
      assign_all-keep rest (assign flags ps view) agree.1 (assign-Hit flags ps view agree.0 here)
  assign_all-Hit ((flags, ps) ∷ rest) view agree (inr later) =
      assign_all-Hit rest (assign flags ps view) agree.1 later

-- No page is the one that is looked up.
abbrev pub Miss : Page → Group → Type 0
Miss q (flags, ps) = All (λ (p, f). same_entry p q ≡ false) ps

assign-Miss :
    (q : Page) (flags : PageTableFlags) (ps : List (Page × Frame)) (view : View)
    → Miss q (flags, ps)
    → assign flags ps view q ≡ view q
unfolding assign
assign-Miss q flags [] view miss = refl
assign-Miss q flags ((p, f) ∷ rest) view miss =
    assign-Miss q flags rest (assign_one flags p f view) miss.1 ∙ rw miss.0 refl

-- A page that the plan does not have stays as it was.
pub assign_all-Miss :
    (q : Page) (gs : List Group) (view : View) → All (Miss q) gs → assign_all gs view q ≡ view q
unfolding assign_all
assign_all-Miss q [] view miss = refl
assign_all-Miss q ((flags, ps) ∷ rest) view miss =
    assign_all-Miss q rest (assign flags ps view) miss.1 ∙ assign-Miss q flags ps view miss.0
