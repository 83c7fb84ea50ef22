-- ===== src/BitmapAllocator/Spec.antt =====
-- The bitmap as a set of free frames, and what an allocation should do to it.
use testos.Base.{
  ℕ, suc, ◌+◌, ◌-◌, ◌*◌, ◌/◌, ◌%◌, ◌≤◌, ◌<◌, ◌≡◌, arith, ◌&&◌, Option, none, some, ◌∷◌, ltb, leb,
  if◌then◌else◌, Outcome, ok, All, length, get_or, u64_end, mul-ok, add-ok,
}
use testos.Frame.{frame}
use testos.Frame.Valid.{new-ok}
use testos.FrameRange.{FrameRange, range}
use testos.BitmapAllocator.{Bitmap, offsets_to_frame}
use testos.BitmapAllocator.Tables.{bit}

abbrev pub IsBytes : Bitmap → Type 0
IsBytes bitmap = All (λ b. b < 256) bitmap

-- Every frame that the bitmap has a bit for starts at an address.
abbrev pub Addressable : Bitmap → Type 0
Addressable bitmap = length bitmap * 32768 < u64_end

-- 1 if the bitmap has frame number `n` free, 0 if it is in use or out of the bitmap.
unfoldable pub free : Bitmap → ℕ → ℕ
free bitmap n = bit (get_or bitmap (n / 8) 0) (n % 8)

pub free-head : (b : ℕ) (bs : Bitmap) (n : ℕ) → n < 8 → free (b ∷ bs) n ≡ bit b n
unfolding free
free-head b bs n h = let q : n / 8 ≡ 0 = omega arith in let r : n % 8 ≡ n = omega arith in rw (q, r)

pub free-tail : (b : ℕ) (bs : Bitmap) (n : ℕ) → 8 ≤ n → free (b ∷ bs) n ≡ free bs (n - 8)
unfolding free
free-tail b bs n h =
    let q : n / 8 ≡ suc ((n - 8) / 8) = omega arith in
    let r : n % 8 ≡ (n - 8) % 8 = omega arith in rw (q, r)

abbrev pub AllFree : Bitmap → ℕ → ℕ → Type 0
AllFree bitmap n s = (i : ℕ) → n ≤ i → i < n + s → free bitmap i ≡ 1

-- No `s` frames in a row, the first at a multiple of `s`, are free.
abbrev pub NoneFree : Bitmap → ℕ → Type 0
NoneFree bitmap s = (n : ℕ) → n % s ≡ 0 → n + s ≤ 8 * length bitmap → ¬ AllFree bitmap n s

-- The result of an allocation of `s` frames, in the part of a bitmap from byte `i` on. With a
-- range: it has `s` frames, aligned to `s`, which were free and are now in use; every other
-- frame is as it was. With none: nothing has changed, and no aligned group of frames was free.
pub data Grants (s i : ℕ) (before after : Bitmap) (r : Option FrameRange) : Type 0 where
  granted :
      (n : ℕ)
      → r ≡ some (range (frame ((i * 8 + n) * 4096)) s)
      → n % s ≡ 0
      → n + s ≤ 8 * length before
      → AllFree before n s
      → ((j : ℕ) → free after j ≡ (if leb n j && ltb j (n + s) then 0 else free before j))
      → Grants s i before after r
  refused : r ≡ none → after ≡ before → NoneFree before s → Grants s i before after r

-- Total correctness of an allocation: it returns, the bitmap still has the same number of bytes,
-- and the result is as it should be.
pub record Allocates (s i : ℕ) (before : Bitmap) (r : Outcome (Option FrameRange × Bitmap))
    : Type 0 where
  pub result : Option FrameRange
  pub after : Bitmap
  pub returns : r ≡ ok (result, after)
  pub same_length : length after ≡ length before
  pub bytes : IsBytes after
  pub grants : Grants s i before after result

pub offsets_to_frame-ok :
    (i k : ℕ)
    → k < 8
    → (i * 8 + 8) * 4096 < u64_end
    → offsets_to_frame i k ≡ ok (frame ((i * 8 + k) * 4096))
unfolding offsets_to_frame
offsets_to_frame-ok i k hk h = rw (
  mul-ok i 4096 (omega arith),
  mul-ok (i * 4096) 8 (omega arith),
  mul-ok k 4096 (omega arith),
  add-ok (i * 4096 * 8) (k * 4096) (omega arith),
  sum,
  new-ok ((i * 8 + k) * 4096) (omega arith) (omega arith),
)
  where
    sum : i * 4096 * 8 + k * 4096 ≡ (i * 8 + k) * 4096
    sum = omega arith
