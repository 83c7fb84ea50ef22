-- ===== src/Mm/Direct.antt =====
-- The direct mapping of physical memory that `create_page_table_template` of src/mm.rs plans: each
-- frame of the memory map goes to its page there.
use testos.Base.{
  ok, Bool, false, panic, ltb, ◌==◌, ◌&&◌, if◌then◌else◌, ℕ, zero, suc, ◌+◌, ◌-◌, ◌*◌, ◌/◌, ◌%◌,
  ◌^◌, ◌<◌, ◌≡◌, inl, inr, refl, sym, ap, ◌∙◌, subst, arith, true, List, [], ◌∷◌, Outcome, All, Any,
  All-every,
}
use testos.Extent.{Extent}
use testos.Extent.Valid.{IsExtent, Covers}
use testos.Frame.{Frame, frame}
use testos.FrameRange
use testos.FrameRange.{range}
use testos.FrameRange.Iter.{frames_from, iter-eq-frames_from}
use testos.FrameRange.Covering.{first_frame, last_frame, containing_extent-ok}
use testos.Page.{Page, page, l4_index, l3_index, l2_index, l1_index}
use testos.Page.Indices.{start-of_indices, l4_index-eq}
use testos.PageRange.Fits.{IfOk, IfOk-bind, IfOk-then, IfOk-map}
use testos.MemoryMap.{MapEntry}
use testos.Paging.Flags.{PageTableFlags}
use testos.Paging.Walk.{same_entry}
use testos.Paging.Map.{leaf}
use testos.Mm.{max_memory}
use testos.Mm.Translate.{phys_map_start}
use testos.Mm.Each.{collect}
use testos.Mm.Plan.{Group, data_page_flags, memory_place, memory_plan}
use testos.Mm.Assigned.{Agree}

pub collect-All {ℓ} :
    {A : Type ℓ} (P : Page × Frame → Type 0) (Q : A → Type 0) (place : A → Outcome (Page × Frame))
    → ((x : A) → Q x → IfOk P (place x))
    → (xs : List A) → All Q xs
    → IfOk (All P) (collect place xs)
unfolding collect
collect-All P Q place sound [] h = tt
collect-All P Q place sound (x ∷ xs) h = IfOk-then P (All P) (place x) _ (sound x h.0) (λ pf i.
    IfOk-then (All P) (All P) (collect place xs) _ (collect-All P Q place sound xs h.1)
      (λ rest j. (i, j)))

collect-Any {ℓ} :
    {A : Type ℓ} (P : Page × Frame → Type 0) (Q : A → Type 0) (place : A → Outcome (Page × Frame))
    → ((x : A) → Q x → IfOk P (place x))
    → (xs : List A) → Any Q xs
    → IfOk (Any P) (collect place xs)
unfolding collect
collect-Any P Q place sound [] h = absurd h
collect-Any P Q place sound (x ∷ xs) (inl h) =
    IfOk-then P (Any P) (place x) _ (sound x h)
      (λ pf i. IfOk-bind (Any P) (collect place xs) _ (λ rest _. inl i))
collect-Any P Q place sound (x ∷ xs) (inr h) = IfOk-bind (Any P) (place x) _ (λ pf _.
    IfOk-then (Any P) (Any P) (collect place xs) _ (collect-Any P Q place sound xs h)
      (λ rest i. inr i))

-- The page of the direct mapping for a frame.
abbrev pub direct_page : ℕ → Page
direct_page a = page (phys_map_start + a)

abbrev IsDirect : Frame → Page × Frame → Type 0
IsDirect f (p, g) =
    (p ≡ direct_page f.start) × (g ≡ f) × (f.start < max_memory) × (f.start % 4096 ≡ 0)

memory_place-IsDirect : (f : Frame) → IfOk (IsDirect f) (memory_place f)
unfolding memory_place
memory_place-IsDirect f = go (ltb f.start 0x2000000000) (f.start % 4096 == 0) refl refl
  where
    go :
        (b c : Bool)
        → ltb f.start 0x2000000000 ≡ b
        → (f.start % 4096 == 0) ≡ c
        → IfOk (IsDirect f) (if b && c then ok (page (0xffff800000000000 + f.start), f) else panic)
    go true true eb ec = (refl, refl, ground arith, ground arith)
    go true false eb ec = tt
    go false c eb ec = tt

-- Two pages that share the high bits and all indices are the same.
same_entry-start :
    (p q : Page)
    → p.start % 4096 ≡ 0
    → q.start % 4096 ≡ 0
    → p.start / 2 ^ 48 ≡ q.start / 2 ^ 48
    → same_entry p q ≡ true
    → p.start ≡ q.start
same_entry-start p q ap aq high same =
    let i : l4_index p ≡ l4_index q = ground arith in
    let j : l3_index p ≡ l3_index q = ground arith in
    let k : l2_index p ≡ l2_index q = ground arith in
    let l : l1_index p ≡ l1_index q = ground arith in
    let (_, _, _, _, x) = start-of_indices p ap in
    let (_, _, _, _, y) = start-of_indices q aq in x ∙ rw (high, i, j, k, l) (sym y)

-- What holds of all pages of frames holds of the whole plan for memory.
memory_plan-All :
    (P : PageTableFlags → Page × Frame → Type 0)
    → ((f : Frame) → IfOk (P data_page_flags) (memory_place f))
    → (es : List MapEntry) → IfOk (All (λ (flags, ps). All (P flags) ps)) (memory_plan es)
unfolding memory_plan
memory_plan-All P every [] = tt
memory_plan-All P every (e ∷ es) =
    let Fine : Group → Type 0 = λ (flags, ps). All (P flags) ps in
    IfOk-bind (All Fine) (FrameRange.containing_extent e.extent) _ (λ r _.
      IfOk-bind (All Fine) (FrameRange.iter r) _ (λ frames _.
        IfOk-then (All (P data_page_flags)) (All Fine) (collect memory_place frames) _
          (collect-All (P data_page_flags) (λ _. Unit {0}) memory_place (λ f _. every f) frames
            (All-every (λ _. tt) frames))
          (λ ps i.
            IfOk-then (All Fine) (All Fine) (memory_plan es) _ (memory_plan-All P every es)
              (λ rest j. (i, j)))))

pub memory_plan-top :
    (es : List MapEntry)
    → IfOk (All (λ (flags, ps). All (λ (p, f). l4_index p ≡ 256) ps)) (memory_plan es)
memory_plan-top =
    memory_plan-All (λ flags (p, f). l4_index p ≡ 256)
      (λ f.
        IfOk-map (IsDirect f) _
          (λ (p, g) (ep, _, below, _).
            let start : p.start ≡ phys_map_start + f.start = ap (λ t. t.start) ep in
            l4_index-eq p ∙ omega (arith, start, below))
          (memory_place f) (memory_place-IsDirect f))

module _ (x a : ℕ) (page_of : a ≡ x / 4096 * 4096) where
  frames_from-Any :
      (n j : ℕ) (f : Frame)
      → a ≡ f.start + j * 4096
      → j < n
      → Any (λ g. g ≡ frame a) (frames_from n f)
  frames_from-Any zero j f e h = absurd (omega arith)
  frames_from-Any (suc n) zero f e h = inl (ap frame (omega arith))
  frames_from-Any (suc n) (suc j) f e h =
      inr (frames_from-Any n j (frame (f.start + 4096)) (omega arith) (omega arith))

  -- The frame of an address is among those that the code lists for an extent with the address.
  listed :
      (e : Extent)
      → IsExtent e
      → Covers e x
      → IfOk
          (λ r. IfOk (Any (λ g. g ≡ frame a)) (FrameRange.iter r))
          (FrameRange.containing_extent e)
  listed e v h =
      rw
        (
          containing_extent-ok e v,
          iter-eq-frames_from
              (range (frame (first_frame e * 4096)) (last_frame e - first_frame e + 1))
              (omega arith),
        )
        (frames_from-Any (last_frame e - first_frame e + 1) (x / 4096 - first_frame e)
          (frame (first_frame e * 4096)) (omega arith) (omega arith))

  abbrev IsPlan : Page × Frame → Type 0
  IsPlan (p, g) = (p ≡ direct_page a) × (g ≡ frame a) × (a < max_memory)

  -- The plan has the frame of the address, which lies below 128 GiB.
  abbrev pub Planned : Group → Type 0
  Planned (flags, ps) = (flags ≡ data_page_flags) × Any IsPlan ps

  memory_place-IsPlan : (f : Frame) → f ≡ frame a → IfOk IsPlan (memory_place f)
  memory_place-IsPlan f e =
      subst (λ g. IfOk IsPlan (memory_place g)) (sym e)
        (IfOk-map (IsDirect (frame a)) IsPlan (λ pf i. (i.0, i.1, i.2)) (memory_place (frame a))
          (memory_place-IsDirect (frame a)))

  pub memory_plan-Planned :
      (es : List MapEntry)
      → Any (λ e. IsExtent e.extent × Covers e.extent x) es
      → IfOk (Any Planned) (memory_plan es)
  unfolding memory_plan
  memory_plan-Planned [] h = absurd h
  memory_plan-Planned (e ∷ es) (inl (v, h)) =
      IfOk-then (λ r. IfOk (Any (λ g. g ≡ frame a)) (FrameRange.iter r)) (Any Planned)
        (FrameRange.containing_extent e.extent) _ (listed e.extent v h)
        (λ r i.
          IfOk-then (Any (λ g. g ≡ frame a)) (Any Planned) (FrameRange.iter r) _ i (λ frames j.
            IfOk-then (Any IsPlan) (Any Planned) (collect memory_place frames) _
              (collect-Any IsPlan (λ g. g ≡ frame a) memory_place memory_place-IsPlan frames j)
              (λ ps k. IfOk-bind (Any Planned) (memory_plan es) _ (λ rest _. inl (refl, k)))))
  memory_plan-Planned (e ∷ es) (inr h) =
      IfOk-bind (Any Planned) (FrameRange.containing_extent e.extent) _ (λ r _.
        IfOk-bind (Any Planned) (FrameRange.iter r) _ (λ frames _.
          IfOk-bind (Any Planned) (collect memory_place frames) _ (λ ps _.
            IfOk-then (Any Planned) (Any Planned) (memory_plan es) _ (memory_plan-Planned es h)
              (λ rest k. inr k))))

  module _ (small : a < max_memory) where
    memory_place-agrees :
        (f : Frame)
        → IfOk
            (λ (p, g).
              same_entry p (direct_page a) ≡ true
              → leaf g data_page_flags ≡ leaf (frame a) data_page_flags)
            (memory_place f)
    memory_place-agrees f =
        IfOk-map (IsDirect f) _
          (λ (p, g) (ep, eg, below, al) same.
            let e : p.start ≡ phys_map_start + a =
              same_entry-start p (direct_page a) (rw ep (omega arith)) (omega arith)
                (rw ep (omega arith)) same in
            rw eg
              (ap (λ s. leaf (frame s) data_page_flags) (omega (arith, e, ap (λ t. t.start) ep))))
          (memory_place f) (memory_place-IsDirect f)

    pub memory_plan-Agree :
        (es : List MapEntry)
        → IfOk (All (Agree (direct_page a) (leaf (frame a) data_page_flags))) (memory_plan es)
    memory_plan-Agree =
        memory_plan-All
          (λ flags (p, g).
            same_entry p (direct_page a) ≡ true → leaf g flags ≡ leaf (frame a) data_page_flags)
          memory_place-agrees
