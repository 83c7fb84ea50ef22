-- ===== src/FillBitmap/Bytes.antt =====
-- The three ways in which `fill_bitmap_from_map` sets bits, as the frames that become free.
use testos.Base.{
  ℕ, zero, suc, ◌+◌, ◌-◌, ◌*◌, ◌/◌, ◌%◌, ◌≤◌, ◌<◌, ◌≡◌, refl, ◌∙◌, arith, ◌&&◌, ltb, leb, ◌==◌,
  if◌then◌else◌, Outcome, ok, length, get_or, set, bit_or, get_elem?-eq-get_or, get_or-set_self,
  get_or-set_ne, length-set, All-get_or, All-set, lt→ltb,
}
use testos.BitmapAllocator.{Bitmap}
use testos.BitmapAllocator.Tables.{bit, bit-full}
use testos.BitmapAllocator.Spec.{IsBytes, free}
use testos.FillBitmap.{fill_bytes, or_byte, set_most_significant_bits, set_least_significant_bits}
use testos.FillBitmap.Tables.{bit-most, bit-least, or_masks-lt}

-- The code returns a bitmap of the same length in which the frames from `lo` on and below `hi`
-- are free, and the others are as they were.
pub record Marks (lo hi : ℕ) (before : Bitmap) (r : Outcome Bitmap) : Type 0 where
  pub after : Bitmap
  pub returns : r ≡ ok after
  pub same_length : length after ≡ length before
  pub bytes : IsBytes after
  pub marks : (j : ℕ) → free after j ≡ (if leb lo j && ltb j hi then 1 else free before j)

pub free-set :
    (bitmap : Bitmap) (i v j : ℕ)
    → i < length bitmap
    → free (set bitmap i v) j ≡ (if j / 8 == i then bit v (j % 8) else free bitmap j)
unfolding free
free-set bitmap i v j h =
    ground (arith, get_or-set_self bitmap i v 0, get_or-set_ne bitmap i (j / 8) v 0)

fill_one :
    (bitmap : Bitmap) (i j : ℕ)
    → i < length bitmap
    → free (set bitmap i 255) j ≡ (if leb (8 * i) j && ltb j (8 * i + 8) then 1 else free bitmap j)
fill_one bitmap i j h = ground (arith, free-set bitmap i 255 j, bit-full (j % 8))

pub fill_bytes-Marks :
    (n i : ℕ) (bitmap : Bitmap)
    → i + n ≤ length bitmap
    → IsBytes bitmap
    → Marks (8 * i) (8 * (i + n)) bitmap (fill_bytes n i bitmap)
unfolding fill_bytes
fill_bytes-Marks zero i bitmap h b = record {
  after = bitmap;
  returns = refl;
  same_length = refl;
  bytes = b;
  marks = λ j. ground arith;
}
fill_bytes-Marks (suc n) i bitmap h b =
    let len = length-set bitmap i 255 in
    let rest =
      fill_bytes-Marks n (i + 1) (set bitmap i 255) (omega (arith, len))
        (All-set (λ b. b < 256) bitmap i 255 (omega arith) b) in
    record {
      after = rest.after;
      returns = rw (lt→ltb i (length bitmap) (omega arith)) rest.returns;
      same_length = rest.same_length ∙ len;
      bytes = rest.bytes;
      marks = λ j. rest.marks j ∙ ground (arith, fill_one bitmap i j (omega arith));
    }

or_byte-ok :
    (i bits : ℕ) (bitmap : Bitmap)
    → i < length bitmap
    → or_byte i bits bitmap ≡ ok (set bitmap i (bit_or (get_or bitmap i 0) bits))
unfolding or_byte
or_byte-ok i bits bitmap h = rw (get_elem?-eq-get_or bitmap i 0 h)

abbrev byte_at : Bitmap → ℕ → ℕ
byte_at bitmap i = get_or bitmap i 0

-- `n` bits at the top of byte `i`.
pub or_most-Marks :
    (i n : ℕ) (bitmap : Bitmap)
    → i < length bitmap
    → n < 8
    → IsBytes bitmap
    → Marks (8 * i + (8 - n)) (8 * i + 8) bitmap (or_byte i (set_most_significant_bits n) bitmap)
unfolding free
or_most-Marks i n bitmap h hn b =
    let small = All-get_or (λ b. b < 256) bitmap i 0 h b in
    record {
      after = set bitmap i (bit_or (byte_at bitmap i) (set_most_significant_bits n));
      returns = or_byte-ok i _ bitmap h;
      same_length = length-set bitmap i _;
      bytes = All-set (λ b. b < 256) bitmap i _ ((or_masks-lt _ n small hn).0) b;
      marks = λ j. free-set bitmap i _ j h ∙ most j small;
    }
  where
    most :
        (j : ℕ)
        → byte_at bitmap i < 256
        → (if j / 8 == i
            then bit (bit_or (byte_at bitmap i) (set_most_significant_bits n)) (j % 8)
            else free bitmap j)
          ≡ (if leb (8 * i + (8 - n)) j && ltb j (8 * i + 8) then 1 else free bitmap j)
    most j small = ground (arith, bit-most (byte_at bitmap i) n (j % 8) small hn (omega arith))

-- `n` bits at the bottom of byte `i`.
pub or_least-Marks :
    (i n : ℕ) (bitmap : Bitmap)
    → i < length bitmap
    → n < 8
    → IsBytes bitmap
    → Marks (8 * i) (8 * i + n) bitmap (or_byte i (set_least_significant_bits n) bitmap)
unfolding free
or_least-Marks i n bitmap h hn b =
    let small = All-get_or (λ b. b < 256) bitmap i 0 h b in
    record {
      after = set bitmap i (bit_or (byte_at bitmap i) (set_least_significant_bits n));
      returns = or_byte-ok i _ bitmap h;
      same_length = length-set bitmap i _;
      bytes = All-set (λ b. b < 256) bitmap i _ ((or_masks-lt _ n small hn).1) b;
      marks = λ j. free-set bitmap i _ j h ∙ least j small;
    }
  where
    least :
        (j : ℕ)
        → byte_at bitmap i < 256
        → (if j / 8 == i
            then bit (bit_or (byte_at bitmap i) (set_least_significant_bits n)) (j % 8)
            else free bitmap j)
          ≡ (if leb (8 * i) j && ltb j (8 * i + n) then 1 else free bitmap j)
    least j small = ground (arith, bit-least (byte_at bitmap i) n (j % 8) small hn (omega arith))
