-- ===== src/BitmapAllocator/Bytes.antt =====
-- Runs of whole bytes of the bitmap: the inner loops of `allocate_range` for 8 frames or more.
use native.Mathlib.Nat.{zero-div}
use testos.Base.{
  ℕ, zero, suc, ◌+◌, ◌*◌, ◌/◌, ◌%◌, ◌^◌, ◌≤◌, ◌<◌, ◌≡◌, refl, sym, ◌∙◌, arith, Bool, true, false,
  ◌&&◌, some, ltb, leb, ◌==◌, if◌then◌else◌, Outcome, ok, length, get_elem?, get_or, set,
  get_elem?-eq-get_or, get_or-set_self, get_or-set_ne, length-set, All-get_or, All-set, le_or_lt,
  inl, inr, Bool-cases, ==_iff, true_ne_false,
}
use testos.BitmapAllocator.{Bitmap, all_max, clear_bytes}
use testos.BitmapAllocator.Tables.{full_byte, bit-full}
use testos.BitmapAllocator.Groups.{set_from_complete}
use testos.BitmapAllocator.Spec.{IsBytes, free, AllFree}

-- The `n` bytes from `j` on are `u8::MAX`.
abbrev pub AllMax : Bitmap → ℕ → ℕ → Type 0
AllMax bitmap j n = (i : ℕ) → j ≤ i → i < j + n → get_or bitmap i 0 ≡ 255

-- What `all_max` answers.
pub data Scans (bitmap : Bitmap) (j n : ℕ) (r : Outcome Bool) : Type 0 where
  whole : r ≡ ok true → AllMax bitmap j n → Scans bitmap j n r
  partial : r ≡ ok false → ¬ AllMax bitmap j n → Scans bitmap j n r

pub all_max-Scans :
    (bitmap : Bitmap) (n j : ℕ) → j + n ≤ length bitmap → Scans bitmap j n (all_max n j bitmap)
unfolding all_max
all_max-Scans bitmap zero j h = whole refl (λ i lo hi. absurd (omega arith))
all_max-Scans bitmap (suc n) j h = go (all_max-Scans bitmap n (j + 1) (omega arith))
  where
    byte : ℕ
    byte = get_or bitmap j 0

    read : get_elem? bitmap j ≡ some byte
    read = get_elem?-eq-get_or bitmap j 0 (omega arith)

    step : all_max (suc n) j bitmap ≡ (if byte == 255 then all_max n (j + 1) bitmap else ok false)
    step = rw read

    go :
        Scans bitmap (j + 1) n (all_max n (j + 1) bitmap)
        → Scans bitmap j (suc n) (all_max (suc n) j bitmap)
    go rest = elim (Bool-cases (byte == 255)) [
      | inl full ↦ elim rest [
        | whole e all ↦ whole (step ∙ (rw full e)) (λ i lo hi. elim (le_or_lt i j) [
          | inl at ↦ let same : i ≡ j = omega arith in rw same ((==_iff byte 255).0 full)
          | inr past ↦ all i (omega arith) (omega arith)
        ])
        | partial e not_all ↦
            partial (step ∙ (rw full e))
              (λ all. not_all (λ i lo hi. all i (omega arith) (omega arith)))
      ]
      | inr other ↦ partial (step ∙ (rw other)) (λ all.
          true_ne_false (sym ((==_iff byte 255).1 (all j (omega arith) (omega arith))) ∙ other))
    ]

pub length-clear_bytes :
    (n j : ℕ) (bitmap : Bitmap) → length (clear_bytes n j bitmap) ≡ length bitmap
unfolding clear_bytes
length-clear_bytes zero j bitmap = refl
length-clear_bytes (suc n) j bitmap =
    length-clear_bytes n (j + 1) (set bitmap j 0) ∙ length-set bitmap j 0

pub clear_bytes-IsBytes :
    (n j : ℕ) (bitmap : Bitmap) → IsBytes bitmap → IsBytes (clear_bytes n j bitmap)
unfolding clear_bytes
clear_bytes-IsBytes zero j bitmap b = b
clear_bytes-IsBytes (suc n) j bitmap b =
    clear_bytes-IsBytes n (j + 1) (set bitmap j 0)
      (All-set (λ b. b < 256) bitmap j 0 (omega arith) b)

pub get_or-clear_bytes :
    (n j i : ℕ) (bitmap : Bitmap)
    → j + n ≤ length bitmap
    → get_or (clear_bytes n j bitmap) i 0
      ≡ (if leb j i && ltb i (j + n) then 0 else get_or bitmap i 0)
unfolding clear_bytes
get_or-clear_bytes zero j i bitmap h = ground arith
get_or-clear_bytes (suc n) j i bitmap h = ground (
  arith,
  length-set bitmap j 0,
  get_or-clear_bytes n (j + 1) i (set bitmap j 0),
  get_or-set_self bitmap j 0 0,
  get_or-set_ne bitmap j i 0 0,
)

-- Whole bytes are free frames.
pub AllMax-AllFree :
    (bitmap : Bitmap) (j n : ℕ) → AllMax bitmap j n → AllFree bitmap (8 * j) (8 * n)
unfolding free
AllMax-AllFree bitmap j n all i lo hi =
    rw (all (i / 8) (omega arith) (omega arith)) (bit-full (i % 8) (omega arith))

pub AllFree-AllMax :
    (bitmap : Bitmap) (j n : ℕ)
    → IsBytes bitmap
    → j + n ≤ length bitmap
    → AllFree bitmap (8 * j) (8 * n)
    → AllMax bitmap j n
unfolding free
AllFree-AllMax bitmap j n b h all i lo hi =
    full_byte (get_or bitmap i 0) (All-get_or (λ b. b < 256) bitmap i 0 (omega arith) b) (
      set_from_complete (get_or bitmap i 0) 8 0 (λ k lo' hi'.
        let q : (8 * i + k) / 8 ≡ i = omega arith in
        let r : (8 * i + k) % 8 ≡ k = omega arith in
        rw (q, r) at (all (8 * i + k) (omega arith) (omega arith))))

-- Clearing bytes takes their frames, and no others.
pub free-clear_bytes :
    (n j i : ℕ) (bitmap : Bitmap)
    → j + n ≤ length bitmap
    → free (clear_bytes n j bitmap) i
      ≡ (if leb (8 * j) i && ltb i (8 * j + 8 * n) then 0 else free bitmap i)
unfolding free
free-clear_bytes n j i bitmap h =
    ground (arith, get_or-clear_bytes n j (i / 8) bitmap h, zero-div (2 ^ (i % 8)))
