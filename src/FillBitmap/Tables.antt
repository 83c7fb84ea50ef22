-- ===== src/FillBitmap/Tables.antt =====
-- The bits that `fill_bitmap_from_map` sets in a byte, checked for every byte.
use testos.Base.{
  ℕ, ◌-◌, ◌<◌, ◌≡◌, refl, true, false, ltb, leb, ◌==◌, ==_iff, arith, if◌then◌else◌, bit_or,
}
use testos.Base.Tables.{all_below, all_below_sound, all_below₂, all_below₂_sound}
use testos.BitmapAllocator.Tables.{bit}
use testos.FillBitmap.{set_most_significant_bits, set_least_significant_bits}

most_table :
    all_below₂ 256 8 (λ b n. all_below 8 (λ j.
      bit (bit_or b (set_most_significant_bits n)) j == (if leb (8 - n) j then 1 else bit b j)))
    ≡ true
unfolding all_below₂ set_most_significant_bits
most_table = refl

least_table :
    all_below₂ 256 8 (λ b n.
      all_below 8
        (λ j. bit (bit_or b (set_least_significant_bits n)) j == (if ltb j n then 1 else bit b j)))
    ≡ true
unfolding all_below₂ set_least_significant_bits
least_table = refl

byte_table :
    all_below₂ 256 8 (λ b n.
      if ltb (bit_or b (set_most_significant_bits n)) 256
      then ltb (bit_or b (set_least_significant_bits n)) 256
      else false)
    ≡ true
unfolding all_below₂ set_most_significant_bits set_least_significant_bits
byte_table = refl

-- The masks set the `n` bits at the top and at the bottom of a byte, and leave the others.
pub bit-most :
    (b n j : ℕ)
    → b < 256
    → n < 8
    → j < 8
    → bit (bit_or b (set_most_significant_bits n)) j ≡ (if leb (8 - n) j then 1 else bit b j)
bit-most b n j hb hn hj =
    (==_iff _ _).0 (all_below_sound 8 _ j (all_below₂_sound 256 8 _ b n most_table hb hn) hj)

pub bit-least :
    (b n j : ℕ)
    → b < 256
    → n < 8
    → j < 8
    → bit (bit_or b (set_least_significant_bits n)) j ≡ (if ltb j n then 1 else bit b j)
bit-least b n j hb hn hj =
    (==_iff _ _).0 (all_below_sound 8 _ j (all_below₂_sound 256 8 _ b n least_table hb hn) hj)

pub or_masks-lt :
    (b n : ℕ)
    → b < 256
    → n < 8
    → (bit_or b (set_most_significant_bits n) < 256)
      × (bit_or b (set_least_significant_bits n) < 256)
or_masks-lt b n hb hn =
    let both =
      all_below₂_sound 256 8
        (λ b n.
          if ltb (bit_or b (set_most_significant_bits n)) 256
          then ltb (bit_or b (set_least_significant_bits n)) 256
          else false)
        b n byte_table hb hn in
    (ground arith, ground arith)
