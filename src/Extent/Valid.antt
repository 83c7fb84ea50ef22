-- ===== src/Extent/Valid.antt =====
-- What the constructors of `Extent` promise, and the set of addresses that an extent stands for.
use testos.Base.{
  ℕ, ◌+◌, ◌-◌, ◌≤◌, ◌<◌, ◌≡◌, ◌↔◌, Option, none, some, arith, ok, u64_end, add-ok, sub-ok,
}
use testos.Extent.{Extent, extent, new_checked, from_range_inclusive, end_address, last_address}

-- Non-empty, and its end is an address.
pub record IsExtent (e : Extent) : Type 0 where
  pub nonempty : 0 < e.length
  pub fits : e.address + e.length < u64_end

-- The address past the last one, as a number.
abbrev pub end_of : Extent → ℕ
end_of e = e.address + e.length

abbrev pub Covers : Extent → ℕ → Type 0
Covers e x = (e.address ≤ x) × (x < end_of e)

abbrev pub CoversAny : Option Extent → ℕ → Type 0
CoversAny none x = ⊥
CoversAny (some e) x = Covers e x

-- `new_checked` builds exactly the extents that are non-empty and have an end address.
pub new_checked_iff :
    (a l : ℕ) (e : Extent)
    → a < u64_end
    → (new_checked a l ≡ some e) ↔ ((extent a l ≡ e) × IsExtent e)
unfolding new_checked
new_checked_iff a l e h = (λ p. ground arith, λ (p, v). ground arith)

pub end_address-ok : (e : Extent) → end_of e < u64_end → end_address e ≡ ok (end_of e)
unfolding end_address
end_address-ok e h = add-ok e.address e.length h

pub last_address-ok : (e : Extent) → IsExtent e → last_address e ≡ ok (end_of e - 1)
unfolding last_address
last_address-ok e v = rw (add-ok e.address e.length v.fits) (sub-ok (end_of e) 1 (omega arith))

-- An inclusive range is never empty, and covers both of its ends.
pub from_range_inclusive-ok :
    (s l : ℕ) → s ≤ l → l < u64_end - 1 → from_range_inclusive s l ≡ ok (extent s (l - s + 1))
unfolding from_range_inclusive
from_range_inclusive-ok s l h k = rw (sub-ok l s h) (rw (add-ok (l - s) 1 (omega arith)))
