-- ===== src/Heap/Key.antt =====
-- The choice of a block size.
use testos.Base.{
  ℕ, zero, suc, ◌+◌, ◌≤◌, ◌<◌, ◌≡◌, ◌⊎◌, inl, inr, refl, arith, false, none, some, List, [], ◌∷◌,
  ◌==◌, max, get_or, length, le_or_lt, le→leb, lt→not-leb, ap,
}
use testos.Heap.{key_for_size_align, size_of, place_in, block_sizes}

place_step :
    (s : ℕ) (ss : List ℕ) (size : ℕ) → s < size → place_in (s ∷ ss) size ≡ suc (place_in ss size)
place_step s ss size h =
    let up : place_in ss size + 1 ≡ suc (place_in ss size) = omega arith in
    rw (lt→not-leb size s h) up

-- The place is that of an element that is large enough, or the end; those before are too small.
place_in-least :
    (ss : List ℕ) (size : ℕ)
    → ((place_in ss size ≡ length ss)
        ⊎ ((place_in ss size < length ss) × (size ≤ get_or ss (place_in ss size) 0)))
      × ((k : ℕ) → k < place_in ss size → get_or ss k 0 < size)
place_in-least [] size = (inl refl, λ k h. absurd (omega arith))
place_in-least (s ∷ ss) size = elim (le_or_lt size s) [
  | inl fits ↦
      let here : place_in (s ∷ ss) size ≡ 0 = rw (le→leb size s fits) in
      rw here (inr (omega arith, fits), λ k h. absurd (omega arith))
  | inr more ↦
      let (found, small) = place_in-least ss size in
      rw (place_step s ss size more) (later found, λ k h. before more small k h)
]
  where
    later :
        (place_in ss size ≡ length ss)
          ⊎ ((place_in ss size < length ss) × (size ≤ get_or ss (place_in ss size) 0))
        → (suc (place_in ss size) ≡ suc (length ss))
          ⊎ ((suc (place_in ss size) < suc (length ss)) × (size ≤ get_or ss (place_in ss size) 0))
    later (inl e) = inl (ap suc e)
    later (inr (h, fits)) = inr (omega arith, fits)

    before :
        s < size
        → ((k : ℕ) → k < place_in ss size → get_or ss k 0 < size)
        → (k : ℕ) → k < suc (place_in ss size)
        → get_or (s ∷ ss) k 0 < size
    before more small zero h = more
    before more small (suc k) h = small k (omega arith)

-- `key_for_size_align` gives the smallest block size that holds both the size and the alignment,
-- and none exactly if even the largest does not.
pub key_for_size_align_least :
    (size align : ℕ)
    → ((256 < max size align) × (key_for_size_align size align ≡ none))
      ⊎ ((key : ℕ) × (key_for_size_align size align ≡ some key)
          × (key < 5)
          × (max size align ≤ size_of key)
          × ((k : ℕ) → k < 5 → max size align ≤ size_of k → key ≤ k))
unfolding key_for_size_align
key_for_size_align_least size align =
    let (found, small) = place_in-least block_sizes (max size align) in
    elim found [
      | inl end ↦ inl (small 4 (omega arith), rw end)
      | inr (inside, fits) ↦
          let present : (place_in block_sizes (max size align) == 5) ≡ false = ground arith in
          inr (
            place_in block_sizes (max size align),
            rw present,
            inside,
            fits,
            λ k h large. elim (le_or_lt (place_in block_sizes (max size align)) k) [
              | inl le ↦ le
              | inr lt ↦ absurd (omega (arith, small k lt))
            ],
          )
    ]
