-- ===== src/BitmapAllocator/Large.antt =====
-- `allocate_range` for 8 frames or more: whole bytes of the bitmap.
use native.Mathlib.Nat.{
  mod-add-div', mul-le-mul_right, mul-mod_left, add-mod_right, zero-mod, div-mul-le_self,
  lt-div-mul-add,
}
use Prim.Native.Nat.mul
use testos.Base.{
  ℕ, zero, suc, ◌+◌, ◌-◌, ◌*◌, ◌/◌, ◌%◌, ◌^◌, ◌≤◌, ◌<◌, ◌≡◌, ◌⊎◌, refl, arith, true, false, Option,
  none, some, Outcome, ok, panic, length, le_or_lt, inl, inr, lt→ltb, le→not-ltb, le→leb,
}
use testos.Base.Bits.{pow-pos, pow_add}
use testos.Frame.{frame}
use testos.FrameRange
use testos.FrameRange.{FrameRange, range}
use testos.FrameRange.Valid
use testos.BitmapAllocator.{Bitmap, allocate_bytes, allocate_range, all_max, clear_bytes, rounds_of}
use testos.BitmapAllocator.Bytes.{
  AllMax, whole, partial, all_max-Scans, length-clear_bytes, clear_bytes-IsBytes, AllMax-AllFree,
  AllFree-AllMax, free-clear_bytes,
}
use testos.BitmapAllocator.Spec.{
  IsBytes, Addressable, AllFree, NoneFree, Grants, granted, refused, Allocates, offsets_to_frame-ok,
}

-- A multiple of `m` above another is above it by `m` or more.
next_multiple : (m a b : ℕ) → a % m ≡ 0 → b % m ≡ 0 → a < b → a + m ≤ b
next_multiple m a b ha hb lt = elim (le_or_lt (b / m) (a / m)) [
  | inl le ↦ absurd (omega (arith, mod-add-div' a m, mod-add-div' b m, mul-le-mul_right m le))
  | inr more ↦
      omega (arith, mod-add-div' a m, mod-add-div' b m, mul-le-mul_right m more, mul.suc (a / m) m)
]

eight_multiple : (l i : ℕ) → i % l ≡ 0 → 8 * i % (8 * l) ≡ 0
eight_multiple l i h = rw (← whole_groups) (mul-mod_left (i / l) (8 * l))
  where
    whole_groups : i / l * (8 * l) ≡ 8 * i
    whole_groups = omega (arith, mod-add-div' i l)

-- The outcomes of a search for `8 * l` frames: the allocation that is promised, unless no group is
-- free and the bytes of the bitmap are a multiple of `l`. Then the code reaches `unreachable!()`.
abbrev pub AllocatesOrPanics : ℕ → Bitmap → Outcome (Option FrameRange × Bitmap) → Type 0
AllocatesOrPanics l bitmap r =
    (Allocates (8 * l) 0 bitmap r × ¬ (NoneFree bitmap (8 * l) × (length bitmap % l ≡ 0)))
    ⊎ ((r ≡ panic) × NoneFree bitmap (8 * l) × (length bitmap % l ≡ 0))

-- No group of `8 * l` frames that starts before byte `i` is free.
abbrev NoneBefore : ℕ → Bitmap → ℕ → Type 0
NoneBefore l bitmap i =
    (n : ℕ)
    → n % (8 * l) ≡ 0
    → n + 8 * l ≤ 8 * length bitmap
    → n < 8 * i
    → ¬ AllFree bitmap n (8 * l)

module _ (l : ℕ) (bitmap : Bitmap) (pos : 0 < l) (b : IsBytes bitmap) (h : Addressable bitmap) where
  none_later : (i : ℕ) → length bitmap < i + l → NoneBefore l bitmap i → NoneFree bitmap (8 * l)
  none_later i over before n al inside = before n al inside (omega arith)

  none_next :
      (i : ℕ)
      → i % l ≡ 0
      → i + l ≤ length bitmap
      → ¬ AllMax bitmap i l
      → NoneBefore l bitmap i
      → NoneBefore l bitmap (i + l)
  none_next i al inside not_all before n al_n inside_n lt all = elim (le_or_lt (8 * i) n) [
    | inr below ↦ before n al_n inside_n below all
    | inl past ↦ elim (le_or_lt n (8 * i)) [
      | inl le ↦
          let same : n ≡ 8 * i = omega arith in
          not_all (AllFree-AllMax bitmap i l b inside (rw same at all))
      | inr gt ↦
          absurd (omega (arith, next_multiple (8 * l) (8 * i) n (eight_multiple l i al) al_n gt))
    ]
  ]

  granted_bytes :
      (i : ℕ)
      → i % l ≡ 0
      → i + l ≤ length bitmap
      → AllMax bitmap i l
      → Grants
          (8 * l)
          0
          bitmap
          (clear_bytes l i bitmap)
          (some (range (frame (i * 8 * 4096)) (8 * l)))
  granted_bytes i al inside all =
      granted (8 * i) (let e : i * 8 * 4096 ≡ (0 * 8 + 8 * i) * 4096 = omega arith in rw e refl)
        (eight_multiple l i al) (omega arith) (AllMax-AllFree bitmap i l all)
        (λ j. free-clear_bytes l i j bitmap inside)

  range_made :
      (i : ℕ)
      → i + l ≤ length bitmap
      → FrameRange.new (frame (i * 8 * 4096)) (8 * l)
        ≡ ok (some (range (frame (i * 8 * 4096)) (8 * l)))
  range_made i inside = FrameRange.Valid.new-ok _ (8 * l) (omega arith)

  half_size : 8 * l / 8 ≡ l
  half_size = omega arith

  -- One round.
  over_end :
      (rounds i : ℕ)
      → length bitmap < i + l
      → allocate_bytes (suc rounds) (8 * l) i bitmap ≡ ok (none, bitmap)
  unfolding allocate_bytes
  over_end rounds i over = rw (half_size, lt→ltb _ _ over)

  takes :
      (rounds i : ℕ)
      → i + l ≤ length bitmap
      → all_max l i bitmap ≡ ok true
      → allocate_bytes (suc rounds) (8 * l) i bitmap
        ≡ ok (some (range (frame (i * 8 * 4096)) (8 * l)), clear_bytes l i bitmap)
  unfolding allocate_bytes
  takes rounds i inside e =
      rw
        (
          half_size,
          le→not-ltb _ _ inside,
          e,
          offsets_to_frame-ok i 0 (omega arith) (omega arith),
          at,
        )
        (rw (range_made i inside, half_size))
    where
      at : (i * 8 + 0) ≡ i * 8
      at = omega arith

  skips :
      (rounds i : ℕ)
      → i + l ≤ length bitmap
      → all_max l i bitmap ≡ ok false
      → allocate_bytes (suc rounds) (8 * l) i bitmap ≡ allocate_bytes rounds (8 * l) (i + l) bitmap
  unfolding allocate_bytes
  skips rounds i inside e = rw (half_size, le→not-ltb _ _ inside, e, half_size)

  search :
      (rounds i : ℕ)
      → i % l ≡ 0
      → i ≤ length bitmap
      → length bitmap ≤ i + rounds * l
      → i + rounds * l < length bitmap + l
      → NoneBefore l bitmap i
      → AllocatesOrPanics l bitmap (allocate_bytes rounds (8 * l) i bitmap)
  unfolding allocate_bytes
  search zero i al inside lo hi before =
      let at_end : i ≡ length bitmap = omega arith in
      inr (refl, none_later i (omega arith) before, rw (← at_end) al)
  search (suc rounds) i al inside lo hi before = elim (le_or_lt (i + l) (length bitmap)) [
    | inr over ↦ inl (
      record {
        result = none;
        after = bitmap;
        returns = over_end rounds i over;
        same_length = refl;
        bytes = b;
        grants = refused refl refl (none_later i over before);
      },
      λ (_, al_len). elim (le_or_lt (length bitmap) i) [
        | inl le ↦ omega (arith, mul.suc rounds l)
        | inr gt ↦ omega (arith, next_multiple l i (length bitmap) al al_len gt)
      ],
    )
    | inl fits ↦ elim (all_max-Scans bitmap l i fits) [
      | whole e all ↦ inl (
        record {
          result = some (range (frame (i * 8 * 4096)) (8 * l));
          after = clear_bytes l i bitmap;
          returns = takes rounds i fits e;
          same_length = length-clear_bytes l i bitmap;
          bytes = clear_bytes-IsBytes l i bitmap b;
          grants = granted_bytes i al fits all;
        },
        λ (none_free, _).
            none_free (8 * i) (eight_multiple l i al) (omega arith) (AllMax-AllFree bitmap i l all),
      )
      | partial e not_all ↦ rw (skips rounds i fits e) (
          search rounds (i + l) (rw (add-mod_right i l) al) fits (omega (arith, mul.suc rounds l))
            (omega (arith, mul.suc rounds l)) (none_next i al fits not_all before))
    ]
  ]

  nothing_before : NoneBefore l bitmap 0
  nothing_before n al inside lt = absurd (omega arith)

  rounds_enough :
      (length bitmap ≤ 0 + rounds_of (length bitmap) l * l)
      × (0 + rounds_of (length bitmap) l * l < length bitmap + l)
  rounds_enough =
      let below = div-mul-le_self (length bitmap + l - 1) l in
      let above = lt-div-mul-add {a = length bitmap + l - 1} pos in (omega arith, omega arith)

  search_all :
      AllocatesOrPanics l bitmap (allocate_bytes (rounds_of (length bitmap) l) (8 * l) 0 bitmap)
  search_all =
      search (rounds_of (length bitmap) l) 0 (zero-mod l) (omega arith) rounds_enough.0
        rounds_enough.1 nothing_before

-- `allocate_range` for 8 frames or more and up to `2 ^ 24`: it gives an aligned range of frames
-- that were all free, takes these frames and no others, or answers `None` when no aligned group
-- of frames is free; but in this last case it panics instead when the number of bytes of the
-- bitmap is a multiple of the bytes of a group.
pub allocate_range-AllocatesOrPanics :
    (k : ℕ) (bitmap : Bitmap)
    → k ≤ 21
    → IsBytes bitmap
    → Addressable bitmap
    → AllocatesOrPanics (2 ^ k) bitmap (allocate_range (3 + k) bitmap)
unfolding allocate_range
allocate_range-AllocatesOrPanics k bitmap hk b h =
    rw
      (
        le→leb (3 + k) 24 (omega arith),
        size,
        le→not-ltb (8 * 2 ^ k) 8 (omega (arith, pow-pos k)),
        bytes,
      )
      (search_all (2 ^ k) bitmap (pow-pos k) b h)
  where
    size : 2 ^ (3 + k) ≡ 8 * 2 ^ k
    size = pow_add 3 k

    bytes : 8 * 2 ^ k / 8 ≡ 2 ^ k
    bytes = omega arith
