-- ===== src/Mm/Placed.antt =====
-- Every frame that `create_page_table_template` of src/mm.rs maps is one that an entry can hold, or the
-- code panics before.
use testos.Base.{
  lt→ltb, lt→not-leb, ℕ, zero, suc, ◌+◌, ◌-◌, ◌*◌, ◌%◌, ◌^◌, ◌≤◌, ◌<◌, ◌≡◌, ◌≢◌, ◌⊎◌, inl, inr,
  refl, sym, ap, ◌∙◌, arith, le_or_lt, List, [], ◌∷◌, map, ok, panic, ◌>>=◌, All, u64_end, subst,
}
use testos.Addr
use testos.Addr.{distance}
use testos.Extent
use testos.Extent.{Extent}
use testos.Frame
use testos.Frame.{Frame, frame}
use testos.Frame.Valid.{new-ok, new_panic}
use testos.FrameRange.{range}
use testos.FrameRange.Iter.{frames_from, iter-eq-frames_from}
use testos.Page
use testos.Page.{Page, page}
use testos.PageRange
use testos.PageRange.{PageRange, page_range}
use testos.PageRange.Iter.{as_page, outcome_map, new-as_page, iter-as_pages}
use testos.PageRange.Fits.{Fits, IfOk}
use testos.Mm.{Symbols, first_mib}
use testos.Mm.Translate.{phys_map_start, phys_to_virt_lem}
use testos.Mm.Template.{direct, identity, image}
use testos.Mm.Plan.{memory_place, low_place, image_place}
use testos.Mm.Each.{IsPlaced, placed, not_placed}

-- `Frame::new` either gives the frame or panics.
pub new-cases :
    (s : ℕ)
    → s < u64_end
    → ((s % 4096 ≡ 0) × (Frame.new s ≡ ok (frame s))) ⊎ ((s % 4096 ≢ 0) × (Frame.new s ≡ panic))
new-cases s h = elim (le_or_lt 1 (s % 4096)) [
  | inl odd ↦ inr ((λ e. omega arith), new_panic s h (λ e. omega arith))
  | inr even ↦ let al : s % 4096 ≡ 0 = omega arith in inl (al, new-ok s h al)
]

pub direct-IsPlaced : (f : Frame) → IsPlaced (direct f)
unfolding direct
direct-IsPlaced f = elim (phys_to_virt_lem f.start) [
  | inr (_, e) ↦ not_placed (rw e refl)
  | inl (small, e) ↦
      let as_frame = new-as_page (phys_map_start + f.start) in
      elim (new-cases (phys_map_start + f.start) (omega arith)) [
        | inl (al, made) ↦
            placed (page (phys_map_start + f.start)) f (rw (e, as_frame, made) refl) (omega arith)
              (omega arith)
        | inr (odd, failed) ↦ not_placed (rw (e, as_frame, failed) refl)
      ]
]

pub identity-IsPlaced : (p : Page) → p.start < 2 ^ 48 → IsPlaced (identity p)
unfolding identity
identity-IsPlaced p h = elim (new-cases p.start (omega arith)) [
  | inl (al, made) ↦ placed p (frame p.start) (rw made refl) al h
  | inr (odd, failed) ↦ not_placed (rw failed refl)
]

-- The kernel image lies in the last 2^48 bytes of the address space.
abbrev pub IsHigh : Symbols → Type 0
IsHigh symbols = 2 ^ 64 - 2 ^ 48 ≤ symbols.kernel_virt_base

pub image-IsPlaced :
    (symbols : Symbols) (p : Page) → IsHigh symbols → Fits 0 p → IsPlaced (image symbols p)
unfolding image
image-IsPlaced symbols p high h = elim (le_or_lt symbols.kernel_virt_base p.start) [
  | inr below ↦
      (let d : distance p.start symbols.kernel_virt_base ≡ panic = ground arith in
        not_placed (rw d refl))
  | inl above ↦
      let d : distance p.start symbols.kernel_virt_base ≡ ok (p.start - symbols.kernel_virt_base) =
        ground arith in
      elim (new-cases (p.start - symbols.kernel_virt_base) (omega arith)) [
        | inl (al, made) ↦
            placed p (frame (p.start - symbols.kernel_virt_base)) (rw (d, made) refl) al
              (omega arith)
        | inr (odd, failed) ↦ not_placed (rw (d, failed) refl)
      ]
]

-- The code finds the places of the plan.
pub direct-eq-memory_place : (f : Frame) → direct f ≡ memory_place f
unfolding direct memory_place
direct-eq-memory_place f = elim (phys_to_virt_lem f.start) [
  | inr (big, e) ↦ rw e (ground arith)
  | inl (small, e) ↦
      let as_frame = new-as_page (phys_map_start + f.start) in
      let below = lt→ltb f.start 0x2000000000 small in
      elim (new-cases (phys_map_start + f.start) (omega arith)) [
        | inl (al, made) ↦ rw (e, as_frame, made) (ground arith)
        | inr (odd, failed) ↦
            (let off : f.start % 4096 ≢ 0 = λ h. odd (omega (arith, h)) in
              rw (e, as_frame, failed) (ground (arith, off)))
      ]
]

pub identity-eq-low_place : (p : Page) → p.start < u64_end → identity p ≡ low_place p
unfolding identity low_place
identity-eq-low_place p h = elim (new-cases p.start h) [
  | inl (al, made) ↦ rw made (ground arith)
  | inr (odd, failed) ↦ rw failed (ground (arith, odd))
]

pub image-eq-image_place :
    (symbols : Symbols) (p : Page) → p.start < u64_end → image symbols p ≡ image_place symbols p
unfolding image image_place
image-eq-image_place symbols p h = elim (le_or_lt symbols.kernel_virt_base p.start) [
  | inr below ↦
      let d : distance p.start symbols.kernel_virt_base ≡ panic = ground arith in
      rw (d, lt→not-leb symbols.kernel_virt_base p.start below) refl
  | inl above ↦
      let d : distance p.start symbols.kernel_virt_base ≡ ok (p.start - symbols.kernel_virt_base) =
        ground arith in
      elim (new-cases (p.start - symbols.kernel_virt_base) (omega arith)) [
        | inl (al, made) ↦ rw (d, made) (ground arith)
        | inr (odd, failed) ↦ rw (d, failed) (ground (arith, odd))
      ]
]

pub All-weaken {ℓ κ μ} :
    {A : Type ℓ} {P : A → Type κ} {Q : A → Type μ}
    → ((a : A) → P a → Q a)
    → (xs : List A) → All P xs
    → All Q xs
All-weaken weaken [] h = tt
All-weaken weaken (x ∷ xs) h = (weaken x h.0, All-weaken weaken xs h.1)

frames_from-below :
    (n : ℕ) (f : Frame) (bound : ℕ)
    → f.start + n * 4096 ≤ bound
    → All (λ (p : Page). p.start < bound) (map as_page (frames_from n f))
frames_from-below zero f bound h = tt
frames_from-below (suc n) f bound h =
    (omega arith, frames_from-below n (frame (f.start + 4096)) bound (omega arith))

low_pages : PageRange.iter (page_range (page 0) 256) ≡ ok (map as_page (frames_from 256 (frame 0)))
low_pages =
    iter-as_pages (page_range (page 0) 256)
    ∙ ap (outcome_map (map as_page)) (
        iter-eq-frames_from (range (frame 0) 256)
          (record { aligned = refl; nonempty = omega arith; fits = omega arith }))

low_range : (first_mib >>= λ e. PageRange.containing_extent e) ≡ ok (page_range (page 0) 256)
unfolding PageRange.containing_extent PageRange.between_inclusive PageRange.new Page.containing
    Page.new Page.next Extent.new Extent.new_checked Extent.last_address Addr.is_aligned_to
    Addr.align_down Addr.align_u64_down
low_range = refl

-- The pages of the first MiB lie in it.
first_mib-below :
    IfOk
      (λ r. IfOk (All (λ (p : Page). p.start < 0x100000)) (PageRange.iter r))
      (first_mib >>= λ e. PageRange.containing_extent e)
first_mib-below =
    subst (IfOk (λ r. IfOk (All (λ (p : Page). p.start < 0x100000)) (PageRange.iter r)))
      (sym low_range)
      (subst (IfOk (All (λ (p : Page). p.start < 0x100000))) (sym low_pages)
        (frames_from-below 256 (frame 0) 0x100000 (omega arith)))

pub first_mib-pages :
    (e : Extent) (r : PageRange) (pages : List Page)
    → first_mib ≡ ok e
    → PageRange.containing_extent e ≡ ok r
    → PageRange.iter r ≡ ok pages
    → All (λ (p : Page). p.start < 0x100000) pages
first_mib-pages e r pages ee er ep = subst (IfOk (All (λ (p : Page). p.start < 0x100000))) ep (
    subst (IfOk (λ r. IfOk (All (λ (p : Page). p.start < 0x100000)) (PageRange.iter r)))
      (ap (λ m. m >>= λ e. PageRange.containing_extent e) ee ∙ er) first_mib-below)
