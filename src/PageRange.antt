-- ===== src/PageRange.antt =====
-- `PageRange` of shared/src/memory/page.rs: a contiguous range of pages, never empty.
pub mod Iter
pub mod Fits
use testos.Base.{
  ℕ, zero, suc, ◌/◌, Bool, true, false, Option, none, some, List, [], ◌∷◌, ltb, ◌==◌, if◌then◌else◌,
  Outcome, ok, panic, ◌>>=◌, unwrap, or_return, add, sub,
}
use testos.Addr.{distance}
use testos.Extent
use testos.Extent.{Extent}
use testos.Frame.{page_size}
use testos.Page
use testos.Page.{Page}

pub record PageRange : Type 0 where
  pub first : Page
  pub count : ℕ

abbrev pub page_range : Page → ℕ → PageRange
page_range p n = record { first = p; count = n }

unfoldable pub new : Page → ℕ → Outcome (Option PageRange)
new first count = if count == 0 then ok none else do
  n ← sub count 1
  last ← Page.next first n
  or_return last (λ _. ok (some (page_range first count)))

unfoldable pub one : Page → Outcome PageRange
one p = do r ← new p 1; unwrap r

unfoldable pub between_inclusive : Page → Page → Outcome PageRange
between_inclusive first last = do
  len ← distance last.start first.start
  count ← add (len / page_size) 1
  r ← new first count
  unwrap r

-- Unlike the function on frames, this answers `None` for no pages.
unfoldable pub between_exclusive : Page → Page → Outcome (Option PageRange)
between_exclusive first last = do len ← distance last.start first.start; new first (len / page_size)

unfoldable pub containing_extent : Extent → Outcome PageRange
containing_extent e = do
  first ← Page.containing e.address
  last_addr ← Extent.last_address e
  last ← Page.containing last_addr
  between_inclusive first last

unfoldable pub last : PageRange → Outcome Page
last r = do n ← sub r.count 1; p ← Page.next r.first n; unwrap p

unfoldable pub end : PageRange → Outcome (Option Page)
end r = Page.next r.first r.count

-- `iter::successors`, on the number of pages left, as for frames.
unfoldable pub successors : ℕ → Page → Page → Outcome (List Page)
successors zero final p = panic
successors (suc fuel) final p = elim (ltb p.start final.start) [
  | true ↦ do
    q ← Page.next p 1
    elim q [ none ↦ ok (p ∷ []) | some h ↦ do rest ← successors fuel final h; ok (p ∷ rest) ]
  | false ↦ ok (p ∷ [])
]

unfoldable pub iter : PageRange → Outcome (List Page)
iter r = do l ← last r; successors r.count l r.first
