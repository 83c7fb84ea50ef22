-- ===== src/BitmapAllocator/Groups.antt =====
-- Groups of one or two frames within the bytes of the bitmap.
use native.Mathlib.Nat.{zero-div}
use testos.Base.{
  ℕ, zero, suc, ◌+◌, ◌-◌, ◌*◌, ◌%◌, ◌^◌, ◌≤◌, ◌<◌, ◌≡◌, refl, ap, sym, ◌∙◌, arith, true, false,
  ◌&&◌, Option, none, some, ◌∷◌, ltb, leb, ◌==◌, if◌then◌else◌, Outcome, ok, le_or_lt, inl, inr,
  true_ne_false,
}
use testos.Base.Bits.{pow-pos}
use testos.Frame.{frame}
use testos.FrameRange.{FrameRange, range}
use testos.BitmapAllocator.{Bitmap}
use testos.BitmapAllocator.BitGroup.{find_bit_group}
use testos.BitmapAllocator.Tables.{
  bit, set_from, Found, missing, find_bit_group-Found, clear_group, bit-clear_group,
}
use testos.BitmapAllocator.Spec.{free, free-head, free-tail, NoneFree, Grants, granted, refused}

pub set_from_sound : (b n k j : ℕ) → set_from b n k ≡ true → k ≤ j → j < k + n → bit b j ≡ 1
unfolding set_from
set_from_sound b zero k j h lo hi = absurd (omega arith)
set_from_sound b (suc n) k j h lo hi = ground (arith, set_from_sound b n (k + 1) j)

pub set_from_complete :
    (b n k : ℕ) → ((j : ℕ) → k ≤ j → j < k + n → bit b j ≡ 1) → set_from b n k ≡ true
unfolding set_from
set_from_complete b zero k h = refl
set_from_complete b (suc n) k h =
    let here : bit b k ≡ 1 = h k (omega arith) (omega arith) in
    rw here (set_from_complete b n (k + 1) (λ j lo hi. h j (omega arith) (omega arith)))

pub not-set_from_zero : (s k : ℕ) → 0 < s → set_from 0 s k ≡ false
unfolding set_from
not-set_from_zero zero k h = absurd (omega arith)
not-set_from_zero (suc s) k h = rw (zero-div (2 ^ k))

-- Groups of one or two frames do not straddle bytes.
pub group_fits : (e n : ℕ) → e < 2 → n < 8 → n % 2 ^ e ≡ 0 → n + 2 ^ e ≤ 8
group_fits zero n he h al = omega arith
group_fits (suc zero) n he h al = omega arith
group_fits (suc (suc e)) n he h al = absurd (omega arith)

pub group_down : (e n : ℕ) → e < 2 → 8 ≤ n → n % 2 ^ e ≡ 0 → (n - 8) % 2 ^ e ≡ 0
group_down zero n he h al = omega arith
group_down (suc zero) n he h al = omega arith
group_down (suc (suc e)) n he h al = absurd (omega arith)

pub group_up : (e n : ℕ) → e < 2 → n % 2 ^ e ≡ 0 → (8 + n) % 2 ^ e ≡ 0
group_up zero n he al = omega arith
group_up (suc zero) n he al = omega arith
group_up (suc (suc e)) n he al = absurd (omega arith)

-- The search in one byte, which skips a byte with no free frame.
abbrev pub search : ℕ → ℕ → Outcome (Option ℕ)
search b s = if b == 0 then ok none else find_bit_group b s

pub search-Found : (e b : ℕ) → e < 2 → b < 256 → Found b (2 ^ e) (search b (2 ^ e))
search-Found e zero he hb = missing (λ k hk al. not-set_from_zero (2 ^ e) k (pow-pos e))
search-Found e (suc b) he hb =
    let e0 : (suc b == 0) ≡ false = ground arith in rw e0 (find_bit_group-Found e (suc b) he hb)

-- A group in the first byte is granted.
pub granted_head :
    (e i k b : ℕ) (bs : Bitmap)
    → e < 2
    → b < 256
    → k + 2 ^ e ≤ 8
    → k % 2 ^ e ≡ 0
    → set_from b (2 ^ e) k ≡ true
    → Grants
        (2 ^ e)
        i
        (b ∷ bs)
        (clear_group b (2 ^ e) k ∷ bs)
        (some (range (frame ((i * 8 + k) * 4096)) (2 ^ e)))
granted_head e i k b bs he hb fits al set =
    granted k refl al (omega arith)
      (λ j lo hi. rw (free-head b bs j (omega arith)) (set_from_sound b (2 ^ e) k j set lo hi))
      cleared
  where
    cleared :
        (j : ℕ)
        → free (clear_group b (2 ^ e) k ∷ bs) j
          ≡ (if leb k j && ltb j (k + 2 ^ e) then 0 else free (b ∷ bs) j)
    cleared j = elim (le_or_lt 8 j) [
      | inl past ↦
          rw (free-tail (clear_group b (2 ^ e) k) bs j past, free-tail b bs j past) (ground arith)
      | inr inside ↦
          rw (free-head (clear_group b (2 ^ e) k) bs j inside, free-head b bs j inside)
            (bit-clear_group e b k j (omega arith) hb (omega (arith, pow-pos e)) inside)
    ]

-- A byte without a group is left alone.
pub Grants-cons :
    (e i b : ℕ) (bs bs' : Bitmap) (r : Option FrameRange)
    → e < 2
    → ((k : ℕ) → k < 8 → k % 2 ^ e ≡ 0 → set_from b (2 ^ e) k ≡ false)
    → Grants (2 ^ e) (i + 1) bs bs' r
    → Grants (2 ^ e) i (b ∷ bs) (b ∷ bs') r
Grants-cons e i b bs bs' r he out (granted n result al fits all_free after) =
    granted (8 + n) (result ∙ ap (λ t. some (range (frame (t * 4096)) (2 ^ e))) place)
      (group_up e n he al) (omega arith)
      (λ j lo hi.
        rw (free-tail b bs j (omega arith)) (all_free (j - 8) (omega arith) (omega arith)))
      cleared
  where
    place : (i + 1) * 8 + n ≡ i * 8 + (8 + n)
    place = omega arith

    cleared :
        (j : ℕ)
        → free (b ∷ bs') j ≡ (if leb (8 + n) j && ltb j (8 + n + 2 ^ e) then 0 else free (b ∷ bs) j)
    cleared j = elim (le_or_lt 8 j) [
      | inl past ↦
          rw (free-tail b bs' j past, free-tail b bs j past) (ground (arith, after (j - 8)))
      | inr inside ↦ rw (free-head b bs' j inside, free-head b bs j inside) (ground arith)
    ]
Grants-cons e i b bs bs' r he out (refused result same none_free) =
    refused result (ap (λ t. b ∷ t) same) no_group
  where
    no_group : NoneFree (b ∷ bs) (2 ^ e)
    no_group n al fits all_free = elim (le_or_lt 8 n) [
      | inl past ↦ none_free (n - 8) (group_down e n he past al) (omega arith) (λ j lo hi.
          let down : free (b ∷ bs) (8 + j) ≡ free bs (8 + j - 8) =
            free-tail b bs (8 + j) (omega arith) in
          let back : 8 + j - 8 ≡ j = omega arith in
          ap (free bs) (sym back) ∙ sym down ∙ all_free (8 + j) (omega arith) (omega arith))
      | inr inside ↦ true_ne_false (
          sym (
            set_from_complete b (2 ^ e) n (λ j lo hi.
              sym (free-head b bs j (omega (arith, group_fits e n he inside al)))
              ∙ all_free j lo hi))
          ∙ out n inside al)
    ]
