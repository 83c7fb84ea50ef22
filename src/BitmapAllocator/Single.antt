-- ===== src/BitmapAllocator/Single.antt =====
-- The operations on one frame: `reserve`, `unreserve`, `deallocate` and `add_new_frame`.
use testos.Base.{
  ℕ, ◌*◌, ◌/◌, ◌%◌, ◌^◌, ◌<◌, ◌≡◌, ◌⊎◌, refl, ap, ◌∙◌, arith, ◌==◌, if◌then◌else◌, Outcome, ok,
  panic, length, get_or, set, bit_or, get_elem?-eq-get_or, get_or-set_self, get_or-set_ne,
  length-set, All-get_or, All-set, inl, inr, set-set_back,
}
use testos.Base.Bits.{pow-pos}
use testos.Frame.{Frame, frame}
use testos.BitmapAllocator.{
  Bitmap, release, reserve, unreserve, deallocate, deallocate_impl, unreserve_impl,
  frame_to_offsets, reserved, frame_in_use, ReserveResult,
}
use testos.BitmapAllocator.Tables.{
  bit, bit_and-bit, bit-bit_or, bit_or-lt, reserve_mask, bit-clear_group, clear_group,
  clear_group-lt, bit_or-clear_group,
}
use testos.BitmapAllocator.Spec.{IsBytes, free}

-- Frame number `n`.
abbrev pub nth_frame : ℕ → Frame
nth_frame n = frame (n * 4096)

offsets : (n : ℕ) → frame_to_offsets (nth_frame n) ≡ (n / 8, n % 8)
unfolding frame_to_offsets
offsets n = let e : n * 4096 / 4096 ≡ n = omega arith in rw e

abbrev byte_of : Bitmap → ℕ → ℕ
byte_of bitmap n = get_or bitmap (n / 8) 0

byte_of-lt :
    (bitmap : Bitmap) (n : ℕ) → IsBytes bitmap → n < 8 * length bitmap → byte_of bitmap n < 256
byte_of-lt bitmap n b h = All-get_or (λ b. b < 256) bitmap (n / 8) 0 (omega arith) b

-- The frames of a bitmap in which one byte is rewritten.
free-set :
    (bitmap : Bitmap) (n j v : ℕ)
    → n < 8 * length bitmap
    → free (set bitmap (n / 8) v) j ≡ (if j / 8 == n / 8 then bit v (j % 8) else free bitmap j)
unfolding free
free-set bitmap n j v h =
    ground (arith, get_or-set_self bitmap (n / 8) v 0, get_or-set_ne bitmap (n / 8) (j / 8) v 0)

-- `bitmap` with frame `n` made free or used.
abbrev pub IsMarked : Bitmap → ℕ → ℕ → Bitmap → Type 0
IsMarked bitmap n value after =
    (length after ≡ length bitmap)
    × IsBytes after
    × ((j : ℕ) → free after j ≡ (if j == n then value else free bitmap j))

released : Bitmap → ℕ → Bitmap
released bitmap n = set bitmap (n / 8) (bit_or (byte_of bitmap n) (2 ^ (n % 8)))

taken : Bitmap → ℕ → Bitmap
taken bitmap n = set bitmap (n / 8) (clear_group (byte_of bitmap n) 1 (n % 8))

module _ (bitmap : Bitmap) (n : ℕ) (bytes : IsBytes bitmap) (inside : n < 8 * length bitmap) where
  byte_lt : byte_of bitmap n < 256
  byte_lt = byte_of-lt bitmap n bytes inside

  released-IsMarked : IsMarked bitmap n 1 (released bitmap n)
  unfolding released free
  released-IsMarked = (
    length-set bitmap (n / 8) _,
    All-set (λ b. b < 256) bitmap (n / 8) _ (bit_or-lt _ (n % 8) byte_lt (omega arith)) bytes,
    λ j.
        free-set bitmap n j _ inside
        ∙ ground (arith, bit-bit_or (byte_of bitmap n) (n % 8) (j % 8) byte_lt),
  )

  taken-IsMarked : IsMarked bitmap n 0 (taken bitmap n)
  unfolding taken free
  taken-IsMarked = (
    length-set bitmap (n / 8) _,
    All-set (λ b. b < 256) bitmap (n / 8) _
        (clear_group-lt 0 _ (n % 8) (omega arith) byte_lt (omega arith)) bytes,
    λ j.
        free-set bitmap n j _ inside
        ∙ ground (
          arith,
          bit-clear_group 0 (byte_of bitmap n) (n % 8) (j % 8) (omega arith) byte_lt (omega arith)
              (omega arith),
        ),
  )

  release-eq :
      release bitmap (n / 8) (n % 8)
      ≡ (if free bitmap n == 0 then ok (released bitmap n) else panic)
  unfolding release released free
  release-eq = ground (
    arith,
    get_elem?-eq-get_or bitmap (n / 8) 0,
    bit_and-bit (byte_of bitmap n) (n % 8) byte_lt,
    pow-pos (n % 8),
  )

  reserve-eq :
      reserve bitmap (nth_frame n)
      ≡ (if free bitmap n == 1 then ok (reserved, taken bitmap n) else ok (frame_in_use, bitmap))
  unfolding reserve taken free
  reserve-eq = rw (offsets n) (
      ground (
        arith,
        get_elem?-eq-get_or bitmap (n / 8) 0,
        bit_and-bit (byte_of bitmap n) (n % 8) byte_lt,
        reserve_mask (byte_of bitmap n) (n % 8) byte_lt,
        pow-pos (n % 8),
      ))

-- What `reserve` answers for a frame of the bitmap.
abbrev pub Reserves : Bitmap → ℕ → Outcome (ReserveResult × Bitmap) → Type 0
Reserves bitmap n r =
    ((free bitmap n ≡ 1)
      × ((after : Bitmap) × (r ≡ ok (reserved, after)) × IsMarked bitmap n 0 after))
    ⊎ ((free bitmap n ≡ 0) × (r ≡ ok (frame_in_use, bitmap)))

free-cases : (bitmap : Bitmap) (n : ℕ) → (free bitmap n ≡ 1) ⊎ (free bitmap n ≡ 0)
unfolding free
free-cases bitmap n = omega arith

-- `reserve` of a frame that the bitmap has a bit for takes it if it was free, and changes no other
-- frame; if it was in use, it says so and changes nothing.
pub reserve_lem :
    (bitmap : Bitmap) (n : ℕ)
    → IsBytes bitmap
    → n < 8 * length bitmap
    → Reserves bitmap n (reserve bitmap (nth_frame n))
reserve_lem bitmap n b h = elim (free-cases bitmap n) [
  | inl is_free ↦ inl (
    is_free,
    (taken bitmap n, reserve-eq bitmap n b h ∙ (rw is_free), taken-IsMarked bitmap n b h),
  )
  | inr used ↦ inr (used, reserve-eq bitmap n b h ∙ (rw used))
]

-- `deallocate` of a frame that the bitmap has a bit for makes it free again, and changes no other
-- frame; if it was free already, it panics. `unreserve` does the same.
pub deallocate_lem :
    (bitmap : Bitmap) (n : ℕ)
    → IsBytes bitmap
    → n < 8 * length bitmap
    → (unreserve bitmap (nth_frame n) ≡ deallocate bitmap (nth_frame n))
      × (((free bitmap n ≡ 1) × (deallocate bitmap (nth_frame n) ≡ panic))
          ⊎ ((free bitmap n ≡ 0)
              × ((after : Bitmap) × (deallocate bitmap (nth_frame n) ≡ ok after)
                  × IsMarked bitmap n 1 after)))
unfolding deallocate unreserve deallocate_impl unreserve_impl
deallocate_lem bitmap n b h = (
  refl,
  elim (free-cases bitmap n) [
    | inl is_free ↦ inl (is_free, rw (offsets n) (release-eq bitmap n b h ∙ (rw is_free)))
    | inr used ↦ inr (
      used,
      (
        released bitmap n,
        rw (offsets n) (release-eq bitmap n b h ∙ (rw used)),
        released-IsMarked bitmap n b h,
      ),
    )
  ],
)

released-taken :
    (bitmap : Bitmap) (n : ℕ)
    → IsBytes bitmap
    → n < 8 * length bitmap
    → free bitmap n ≡ 1
    → released (taken bitmap n) n ≡ bitmap
unfolding released taken free
released-taken bitmap n b h is_free =
    rw
      (
        get_or-set_self bitmap (n / 8) (clear_group (byte_of bitmap n) 1 (n % 8)) 0 (omega arith),
        bit_or-clear_group (byte_of bitmap n) (n % 8) (byte_of-lt bitmap n b h) (omega arith)
            is_free,
      )
      (set-set_back bitmap (n / 8) _ 0 (omega arith))

unreserve-taken :
    (bitmap : Bitmap) (n : ℕ)
    → IsBytes bitmap
    → n < 8 * length bitmap
    → free bitmap n ≡ 1
    → unreserve (taken bitmap n) (nth_frame n) ≡ ok bitmap
unfolding unreserve unreserve_impl
unreserve-taken bitmap n b h is_free =
    let (same_length, bytes, marks) = taken-IsMarked bitmap n b h in
    let used : free (taken bitmap n) n ≡ 0 = ground (arith, marks n) in
    rw (offsets n) (
      release-eq (taken bitmap n) n bytes (omega arith)
      ∙ (rw used (ap ok (released-taken bitmap n b h is_free))))

reserved_after :
    (bitmap after : Bitmap) (n : ℕ)
    → IsBytes bitmap
    → n < 8 * length bitmap
    → reserve bitmap (nth_frame n) ≡ ok (reserved, after)
    → (free bitmap n ≡ 1) × (taken bitmap n ≡ after)
reserved_after bitmap after n b h e = ground (arith, reserve-eq bitmap n b h, free-cases bitmap n)

-- Giving back a frame that was just reserved restores the bitmap.
pub reserve-unreserve :
    (bitmap after : Bitmap) (n : ℕ)
    → IsBytes bitmap
    → n < 8 * length bitmap
    → reserve bitmap (nth_frame n) ≡ ok (reserved, after)
    → unreserve after (nth_frame n) ≡ ok bitmap
reserve-unreserve bitmap after n b h e =
    let (is_free, same) = reserved_after bitmap after n b h e in
    rw (← same) (unreserve-taken bitmap n b h is_free)
