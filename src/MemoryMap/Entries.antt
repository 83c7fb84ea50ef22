-- ===== src/MemoryMap/Entries.antt =====
-- A map holds the entries that it is made from.
use testos.Base.{
  append_assoc, append-nil, ℕ, zero, suc, ◌+◌, ◌≤◌, ◌<◌, ◌≡◌, ◌⊎◌, inl, inr, refl, ap, ◌∙◌, arith,
  List, [], ◌∷◌, ◌++◌, ok, panic, add-ok, length, set, replicate, length-set, length-replicate,
  le_or_lt, lt→ltb, le→not-ltb,
}
use testos.Extent.{extent}
use testos.MemoryMap.{
  MapEntry, entry, reserved, Map, max_entries, store_entries, from_entries, take, entries,
}

module _ {ℓ} {A : Type ℓ} where
  take-set :
      (xs : List A) (n : ℕ) (v : A)
      → n < length xs
      → take (suc n) (set xs n v) ≡ take n xs ++ (v ∷ [])
  take-set [] n v h = absurd (omega arith)
  take-set (x ∷ xs) zero v h = refl
  take-set (x ∷ xs) (suc n) v h = ap (λ t. x ∷ t) (take-set xs n v (omega arith))

abbrev map_of : List MapEntry → ℕ → Map
map_of es n = record { entries = es; num_entries = n }

store_step :
    (e : MapEntry) (src es : List MapEntry) (n : ℕ)
    → n < length es
    → length es ≤ 128
    → store_entries (e ∷ src) (map_of es n) ≡ store_entries src (map_of (set es n e) (n + 1))
unfolding store_entries
store_step e src es n h small = rw (lt→ltb n (length es) h, add-ok n 1 (omega arith))

-- The stored entries come after those that the map has.
store_entries-ok :
    (src es : List MapEntry) (n : ℕ)
    → n + length src ≤ length es
    → length es ≤ 128
    → (m : Map) × (store_entries src (map_of es n) ≡ ok m) × (entries m ≡ take n es ++ src)
unfolding store_entries entries
store_entries-ok [] es n h small = (map_of es n, refl, rw (append-nil (take n es)))
store_entries-ok (e ∷ src) es n h small =
    let len = length-set es n e in
    let next_place : n + 1 ≡ suc n = omega arith in
    let (m, run, stored) = store_entries-ok src (set es n e) (n + 1) (omega arith) (omega arith) in
    (
      m,
      store_step e src es n (omega arith) small ∙ run,
      stored
          ∙ rw next_place (ap (λ t. t ++ src) (take-set es n e (omega arith)))
          ∙ append_assoc (take n es) (e ∷ []) src,
    )

store_entries-panic :
    (src es : List MapEntry) (n : ℕ)
    → n ≤ length es
    → length es < n + length src
    → length es ≤ 128
    → store_entries src (map_of es n) ≡ panic
unfolding store_entries
store_entries-panic [] es n le h small = absurd (omega arith)
store_entries-panic (e ∷ src) es n le h small = elim (le_or_lt (length es) n) [
  | inl full ↦ rw (le→not-ltb n (length es) full)
  | inr room ↦
      let len = length-set es n e in
      store_step e src es n room small
      ∙ store_entries-panic src (set es n e) (n + 1) (omega arith) (omega arith) (omega arith)
]

-- `from_entries` of 128 entries or fewer does not panic, and `entries` gives back these entries,
-- in order; with more entries it panics.
pub from_entries-entries :
    (src : List MapEntry)
    → ((length src ≤ 128) × ((m : Map) × (from_entries src ≡ ok m) × (entries m ≡ src)))
      ⊎ ((128 < length src) × (from_entries src ≡ panic))
unfolding from_entries
from_entries-entries src = elim (le_or_lt (length src) 128) [
  | inl fits ↦ inl (fits, store_entries-ok src unused 0 (omega (arith, len)) (omega (arith, len)))
  | inr more ↦ inr (
    more,
    store_entries-panic src unused 0 (omega arith) (omega (arith, len)) (omega (arith, len)),
  )
]
  where
    unused : List MapEntry
    unused = replicate max_entries (entry (extent 0 1) reserved)

    len : length unused ≡ 128
    len = length-replicate 128 (entry (extent 0 1) reserved)
