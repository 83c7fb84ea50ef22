-- ===== src/PageRange/Iter.antt =====
-- A range of pages is the range of frames at the same addresses: each operation on pages gives the
-- pages at the addresses of the frames that the operation on frames gives.
use mathlib.Core.Option
use testos.Base.{
  ℕ, zero, suc, ◌≡◌, refl, Option, none, some, List, [], ◌∷◌, Bool, true, false, Outcome, ok, panic,
  ◌>>=◌, ◌==◌, if◌then◌else◌, ltb, sub, assert, ◌>>◌, checked_mul, or_return, unwrap, map,
}
use testos.Addr.{offset_by_checked, is_aligned_to}
use testos.Frame
use testos.Frame.{Frame, frame, page_size}
use testos.FrameRange
use testos.FrameRange.{FrameRange, range}
use testos.Page
use testos.Page.{Page, page}
use testos.PageRange
use testos.PageRange.{PageRange, page_range, iter, last, successors}

abbrev pub as_page : Frame → Page
as_page f = page f.start

abbrev pub as_frame : Page → Frame
as_frame p = frame p.start

-- An outcome with its value mapped.
abbrev pub outcome_map {ℓ κ} : {A : Type ℓ} {B : Type κ} → (A → B) → Outcome A → Outcome B
outcome_map f (ok a) = ok (f a)
outcome_map f panic = panic

abbrev pub as_pages : FrameRange → PageRange
as_pages r = page_range (as_page r.first) r.count

abbrev pub as_frames : PageRange → FrameRange
as_frames r = range (as_frame r.first) r.count

pub new-as_page : (s : ℕ) → Page.new s ≡ outcome_map as_page (Frame.new s)
unfolding Page.new Frame.new
new-as_page s = go (is_aligned_to s page_size)
  where
    go :
        (o : Outcome Bool)
        → (o >>= λ b. assert b >> ok (page s))
          ≡ outcome_map as_page (o >>= λ b. assert b >> ok (frame s))
    go (ok true) = refl
    go (ok false) = refl
    go panic = refl

next-as_page :
    (p : Page) (n : ℕ)
    → Page.next p n ≡ outcome_map (Option.map as_page) (Frame.next (as_frame p) n)
unfolding Page.next Frame.next
next-as_page p n = go (checked_mul page_size n)
  where
    wrap :
        (o : Outcome Frame)
        → (outcome_map as_page o >>= λ q. ok (some q))
          ≡ outcome_map (Option.map as_page) (o >>= λ g. ok (some g))
    wrap (ok f) = refl
    wrap panic = refl

    start_of :
        (o : Option ℕ)
        → or_return o (λ s. Page.new s >>= λ q. ok (some q))
          ≡ outcome_map (Option.map as_page) (or_return o (λ s. Frame.new s >>= λ g. ok (some g)))
    start_of none = refl
    start_of (some s) = rw (new-as_page s) (wrap (Frame.new s))

    go :
        (o : Option ℕ)
        → or_return o
            (λ l. or_return (offset_by_checked p.start l) (λ s. Page.new s >>= λ q. ok (some q)))
          ≡ outcome_map (Option.map as_page) (
              or_return o (λ l.
                or_return (offset_by_checked p.start l) (λ s. Frame.new s >>= λ g. ok (some g))))
    go none = refl
    go (some l) = start_of (offset_by_checked p.start l)

-- A range of pages is made from the same addresses as a range of frames, with the same failures.
pub new-as_pages :
    (p : Page) (n : ℕ)
    → PageRange.new p n ≡ outcome_map (Option.map as_pages) (FrameRange.new (as_frame p) n)
unfolding PageRange.new FrameRange.new
new-as_pages p n = by_count (n == 0)
  where
    after_next :
        (o : Outcome (Option Frame))
        → (outcome_map (Option.map as_page) o >>= λ l.
            or_return l (λ _. ok (some (page_range p n))))
          ≡ outcome_map
              (Option.map as_pages)
              (o >>= λ l. or_return l (λ _. ok (some (range (as_frame p) n))))
    after_next (ok none) = refl
    after_next (ok (some f)) = refl
    after_next panic = refl

    after_sub :
        (o : Outcome ℕ)
        → (o >>= λ m. Page.next p m >>= λ l. or_return l (λ _. ok (some (page_range p n))))
          ≡ outcome_map (Option.map as_pages) (
              o >>= λ m. Frame.next (as_frame p) m >>= λ l.
              or_return l (λ _. ok (some (range (as_frame p) n))))
    after_sub (ok m) = rw (next-as_page p m) (after_next (Frame.next (as_frame p) m))
    after_sub panic = refl

    by_count :
        (b : Bool)
        → (if b
            then ok none
            else sub n 1 >>= λ m.
                Page.next p m >>= λ l. or_return l (λ _. ok (some (page_range p n))))
          ≡ outcome_map (Option.map as_pages) (
              if b
              then ok none
              else sub n 1 >>= λ m. Frame.next (as_frame p) m >>= λ l.
                  or_return l (λ _. ok (some (range (as_frame p) n))))
    by_count true = refl
    by_count false = after_sub (sub n 1)

-- Whether a walk from a page goes on, and where.
successors-as_pages :
    (fuel : ℕ) (final p : Page)
    → PageRange.successors fuel final p
      ≡ outcome_map (map as_page) (FrameRange.successors fuel (as_frame final) (as_frame p))
unfolding PageRange.successors FrameRange.successors
successors-as_pages zero final p = refl
successors-as_pages (suc fuel) final p =
    elim (ltb p.start final.start)
      as (λ b.
        elim b [
          | true ↦ Page.next p 1 >>= λ q. elim q [
            | none ↦ ok (p ∷ [])
            | some h ↦ PageRange.successors fuel final h >>= λ rest. ok (p ∷ rest)
          ]
          | false ↦ ok (p ∷ [])
        ]
        ≡ outcome_map (map as_page) (elim b [
          | true ↦ Frame.next (as_frame p) 1 >>= λ q. elim q [
            | none ↦ ok (as_frame p ∷ [])
            | some h ↦
                FrameRange.successors fuel (as_frame final) h >>= λ rest. ok (as_frame p ∷ rest)
          ]
          | false ↦ ok (as_frame p ∷ [])
        ])) [
          | true ↦
              rw (next-as_page p 1)
                (after_next (successors-as_pages fuel final) (Frame.next (as_frame p) 1))
          | false ↦ refl
        ]
  where
    cons :
        (o : Outcome (List Frame))
        → (outcome_map (map as_page) o >>= λ rest. ok (p ∷ rest))
          ≡ outcome_map (map as_page) (o >>= λ rest. ok (as_frame p ∷ rest))
    cons (ok fs) = refl
    cons panic = refl

    after_next :
        ((q : Page)
          → PageRange.successors fuel final q
            ≡ outcome_map (map as_page) (FrameRange.successors fuel (as_frame final) (as_frame q)))
        → (o : Outcome (Option Frame))
        → (outcome_map (Option.map as_page) o >>= λ q. elim q [
          | none ↦ ok (p ∷ [])
          | some h ↦ PageRange.successors fuel final h >>= λ rest. ok (p ∷ rest)
        ])
          ≡ outcome_map (map as_page) (
              o >>= λ q. elim q [
                | none ↦ ok (as_frame p ∷ [])
                | some h ↦
                    FrameRange.successors fuel (as_frame final) h >>= λ rest. ok (as_frame p ∷ rest)
              ])
    after_next ih (ok none) = refl
    after_next ih (ok (some f)) =
        rw (ih (as_page f)) (cons (FrameRange.successors fuel (as_frame final) f))
    after_next ih panic = refl

last-as_page :
    (r : PageRange) → PageRange.last r ≡ outcome_map as_page (FrameRange.last (as_frames r))
unfolding PageRange.last FrameRange.last
last-as_page r = after_sub (sub r.count 1)
  where
    unwrapped :
        (o : Outcome (Option Frame))
        → (outcome_map (Option.map as_page) o >>= λ q. unwrap q)
          ≡ outcome_map as_page (o >>= λ f. unwrap f)
    unwrapped (ok none) = refl
    unwrapped (ok (some f)) = refl
    unwrapped panic = refl

    after_sub :
        (o : Outcome ℕ)
        → (o >>= λ n. Page.next r.first n >>= λ q. unwrap q)
          ≡ outcome_map as_page (o >>= λ n. Frame.next (as_frame r.first) n >>= λ f. unwrap f)
    after_sub (ok n) = rw (next-as_page r.first n) (unwrapped (Frame.next (as_frame r.first) n))
    after_sub panic = refl

-- `iter` on a range of pages gives the pages at the addresses of the frames that `iter` gives on the
-- range of frames at the same addresses, in the same order, and panics where it panics.
pub iter-as_pages :
    (r : PageRange) → PageRange.iter r ≡ outcome_map (map as_page) (FrameRange.iter (as_frames r))
unfolding PageRange.iter FrameRange.iter
iter-as_pages r = rw (last-as_page r) (after_last (FrameRange.last (as_frames r)))
  where
    after_last :
        (o : Outcome Frame)
        → (outcome_map as_page o >>= λ l. PageRange.successors r.count l r.first)
          ≡ outcome_map
              (map as_page)
              (o >>= λ l. FrameRange.successors r.count l (as_frame r.first))
    after_last (ok l) = successors-as_pages r.count (as_page l) r.first
    after_last panic = refl
