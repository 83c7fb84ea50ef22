-- ===== src/PageRange/Fits.antt =====
-- Every page that a range of pages of shared/src/memory/page.rs lists starts at an address, and not
-- before the first one.
use testos.Base.{
  ℕ, zero, suc, ◌+◌, ◌*◌, ◌/◌, ◌^◌, ◌≤◌, ◌<◌, ◌≡◌, refl, arith, Bool, true, false, Option, none,
  some, List, [], ◌∷◌, Outcome, ok, panic, ◌>>=◌, ◌>>◌, assert, unwrap, or_return, ltb, ltb→lt,
  if◌then◌else◌, All, u64_end, checked_mul, sub, add, ◌==◌,
}
use testos.Addr.{Address, offset_by_checked, distance}
use testos.Addr.Align.{align_down-ok}
use testos.Extent
use testos.Extent.{Extent}
use testos.Frame.{page_size}
use testos.Page
use testos.Page.{Page, page}
use testos.PageRange
use testos.PageRange.{PageRange, page_range}

-- A page that starts at an address, and not below `lo`.
abbrev pub Fits : ℕ → Page → Type 0
Fits lo p = (lo ≤ p.start) × (p.start < u64_end)

-- If the code returns a value, the predicate holds of it.
abbrev pub IfOk {ℓ κ} : {A : Type ℓ} → (A → Type κ) → Outcome A → Type κ
IfOk P panic = Unit
IfOk P (ok a) = P a

pub IfOk-bind {ℓ κ μ} :
    {A : Type ℓ} {B : Type κ} (P : B → Type μ) (m : Outcome A) (k : A → Outcome B)
    → ((a : A) → m ≡ ok a → IfOk P (k a))
    → IfOk P (m >>= k)
IfOk-bind P panic k next = tt
IfOk-bind P (ok a) k next = next a refl

pub IfOk-then {ℓ κ μ ν} :
    {A : Type ℓ} {B : Type κ} (P : A → Type μ) (Q : B → Type ν) (m : Outcome A) (k : A → Outcome B)
    → IfOk P m
    → ((a : A) → P a → IfOk Q (k a))
    → IfOk Q (m >>= k)
IfOk-then P Q panic k i next = tt
IfOk-then P Q (ok a) k i next = next a i

pub IfOk-map {ℓ κ μ} :
    {A : Type ℓ} (P : A → Type κ) (Q : A → Type μ)
    → ((a : A) → P a → Q a)
    → (m : Outcome A) → IfOk P m
    → IfOk Q m
IfOk-map P Q weaken panic i = tt
IfOk-map P Q weaken (ok a) i = weaken a i

module _ (lo : ℕ) where
  new-Fits : (s : Address) → lo ≤ s → s < u64_end → IfOk (Fits lo) (Page.new s)
  unfolding Page.new
  new-Fits s above h = IfOk-bind (Fits lo) _ _ (λ b _. by_test b)
    where
      by_test : (b : Bool) → IfOk (Fits lo) (assert b >> ok (page s))
      by_test true = (above, h)
      by_test false = tt

  abbrev SomeFits : Option Page → Type 0
  SomeFits none = Unit
  SomeFits (some p) = Fits lo p

  next-Fits : (p : Page) (n : ℕ) → lo ≤ p.start → IfOk SomeFits (Page.next p n)
  unfolding Page.next
  next-Fits p n above = at_length (checked_mul page_size n)
    where
      to_some :
          (s : Address) (o : Outcome Page)
          → IfOk (Fits lo) o
          → IfOk SomeFits (o >>= λ q. ok (some q))
      to_some s panic i = tt
      to_some s (ok q) i = i

      at_start :
          (l : ℕ) (b : Bool)
          → ltb (p.start + l) u64_end ≡ b
          → IfOk SomeFits (
              or_return
                (if b then some (p.start + l) else none)
                (λ s. Page.new s >>= λ q. ok (some q)))
      at_start l true h =
          to_some (p.start + l) (Page.new (p.start + l))
            (new-Fits (p.start + l) (omega arith) (ltb→lt (p.start + l) u64_end h))
      at_start l false h = tt

      at_length :
          (o : Option ℕ)
          → IfOk SomeFits (
              or_return o (λ l.
                or_return (offset_by_checked p.start l) (λ s. Page.new s >>= λ q. ok (some q))))
      at_length none = tt
      at_length (some l) = at_start l (ltb (p.start + l) u64_end) refl

  pub successors-Fits :
      (fuel : ℕ) (final p : Page)
      → Fits lo p
      → IfOk (All (Fits lo)) (PageRange.successors fuel final p)
  unfolding PageRange.successors
  successors-Fits zero final p h = tt
  successors-Fits (suc fuel) final p h =
      by_order (ltb p.start final.start) (successors-Fits fuel final)
    where
      put_first :
          (o : Outcome (List Page))
          → IfOk (All (Fits lo)) o
          → IfOk (All (Fits lo)) (o >>= λ rest. ok (p ∷ rest))
      put_first panic i = tt
      put_first (ok ps) i = (h, i)

      after_next :
          ((q : Page) → Fits lo q → IfOk (All (Fits lo)) (PageRange.successors fuel final q))
          → (o : Outcome (Option Page)) → IfOk SomeFits o
          → IfOk (All (Fits lo)) (
              o >>= λ q. elim q [
                | none ↦ ok (p ∷ [])
                | some g ↦ PageRange.successors fuel final g >>= λ rest. ok (p ∷ rest)
              ])
      after_next ih panic i = tt
      after_next ih (ok none) i = (h, tt)
      after_next ih (ok (some q)) i = put_first (PageRange.successors fuel final q) (ih q i)

      by_order :
          (b : Bool)
          → ((q : Page) → Fits lo q → IfOk (All (Fits lo)) (PageRange.successors fuel final q))
          → IfOk (All (Fits lo)) (elim b [
            | true ↦ Page.next p 1 >>= λ q. elim q [
              | none ↦ ok (p ∷ [])
              | some g ↦ PageRange.successors fuel final g >>= λ rest. ok (p ∷ rest)
            ]
            | false ↦ ok (p ∷ [])
          ])
      by_order true ih = after_next ih (Page.next p 1) (next-Fits p 1 h.0)
      by_order false ih = (h, tt)

  -- All pages of a range that begins at an address.
  pub iter-Fits : (r : PageRange) → Fits lo r.first → IfOk (All (Fits lo)) (PageRange.iter r)
  unfolding PageRange.iter
  iter-Fits r h = IfOk-bind (All (Fits lo)) _ _ (λ l _. successors-Fits r.count l r.first h)

  containing-Fits :
      (a : Address) → lo ≤ a / 2 ^ 12 * 2 ^ 12 → a < u64_end → IfOk (Fits lo) (Page.containing a)
  unfolding Page.containing
  containing-Fits a above h =
      rw (align_down-ok 12 a (omega arith) h) (new-Fits (a / 2 ^ 12 * 2 ^ 12) above (omega arith))

  abbrev pub FirstFits : PageRange → Type 0
  FirstFits r = Fits lo r.first

  abbrev SomeFirstFits : Option PageRange → Type 0
  SomeFirstFits none = Unit
  SomeFirstFits (some r) = Fits lo r.first

  range-Fits : (p : Page) (n : ℕ) → Fits lo p → IfOk SomeFirstFits (PageRange.new p n)
  unfolding PageRange.new
  range-Fits p n h = by_count (n == 0)
    where
      after_next :
          (o : Option Page) → IfOk SomeFirstFits (or_return o (λ _. ok (some (page_range p n))))
      after_next none = tt
      after_next (some l) = h

      by_count :
          (b : Bool)
          → IfOk SomeFirstFits (
              if b
              then ok none
              else (sub n 1 >>= λ m.
                  Page.next p m >>= λ l. or_return l (λ _. ok (some (page_range p n)))))
      by_count true = tt
      by_count false = IfOk-bind SomeFirstFits (sub n 1) _ (λ m _.
          IfOk-bind SomeFirstFits (Page.next p m)
            (λ l. or_return l (λ _. ok (some (page_range p n)))) (λ l _. after_next l))

  between-FirstFits :
      (first last : Page) → Fits lo first → IfOk FirstFits (PageRange.between_inclusive first last)
  unfolding PageRange.between_inclusive
  between-FirstFits first last h = IfOk-bind FirstFits (distance last.start first.start) _ (λ d _.
      IfOk-bind FirstFits (add (d / page_size) 1) _
        (λ n _. unwrapped (PageRange.new first n) (range-Fits first n h)))
    where
      unwrapped :
          (o : Outcome (Option PageRange))
          → IfOk SomeFirstFits o
          → IfOk FirstFits (o >>= λ r. unwrap r)
      unwrapped panic i = tt
      unwrapped (ok none) i = tt
      unwrapped (ok (some r)) i = i

  pub containing_extent-FirstFits :
      (e : Extent)
      → lo ≤ e.address / 2 ^ 12 * 2 ^ 12
      → e.address < u64_end
      → IfOk FirstFits (PageRange.containing_extent e)
  unfolding PageRange.containing_extent
  containing_extent-FirstFits e above h =
      IfOk-then (Fits lo) FirstFits (Page.containing e.address) _
        (containing-Fits e.address above h)
        (λ first f. IfOk-bind FirstFits (Extent.last_address e) _ (λ l _.
          IfOk-bind FirstFits (Page.containing l) _ (λ last _. between-FirstFits first last f)))
