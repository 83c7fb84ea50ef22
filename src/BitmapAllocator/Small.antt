-- ===== src/BitmapAllocator/Small.antt =====
-- `allocate_range` for one or two frames.
use testos.Base.{
  ℕ, zero, suc, ◌+◌, ◌-◌, ◌*◌, ◌^◌, ◌<◌, ◌≡◌, refl, ap, arith, true, Option, none, some, [], ◌∷◌,
  ltb, Outcome, length, u64_end,
}
use testos.Base.Bits.{pow-pos}
use testos.Frame.{frame}
use testos.FrameRange.{range}
use testos.FrameRange.Valid
use testos.BitmapAllocator.{Bitmap, allocate_bits, allocate_range}
use testos.BitmapAllocator.Tables.{Found, missing, at_bit, clear_group, clear_group-lt}
use testos.BitmapAllocator.Spec.{IsBytes, Addressable, refused, Allocates, offsets_to_frame-ok}
use testos.BitmapAllocator.Groups.{search, search-Found, granted_head, Grants-cons}

mask_fits : (e : ℕ) → e < 2 → ltb (2 ^ 2 ^ e - 1) 256 ≡ true
mask_fits zero he = refl
mask_fits (suc zero) he = refl
mask_fits (suc (suc e)) he = absurd (omega arith)

-- One round of the loop, by what the search in the byte found.
round-Allocates :
    (e i b : ℕ) (bs : Bitmap) (found : Outcome (Option ℕ))
    → e < 2
    → b < 256
    → IsBytes bs
    → (i * 8 + 8) * 4096 < u64_end
    → search b (2 ^ e) ≡ found
    → Found b (2 ^ e) found
    → Allocates (2 ^ e) (i + 1) bs (allocate_bits (2 ^ e) (i + 1) bs)
    → Allocates (2 ^ e) i (b ∷ bs) (allocate_bits (2 ^ e) i (b ∷ bs))
unfolding allocate_bits
round-Allocates e i b bs found he hb hbs fits eq (missing out) rest = record {
  result = rest.result;
  after = b ∷ rest.after;
  returns = rw (eq, allocate_bits) (rw rest.returns);
  same_length = ap suc rest.same_length;
  bytes = (hb, rest.bytes);
  grants = Grants-cons e i b bs rest.after rest.result he out rest.grants;
}
round-Allocates e i b bs found he hb hbs fits eq (at_bit k inside al set) rest = record {
  result = some (range (frame ((i * 8 + k) * 4096)) (2 ^ e));
  after = clear_group b (2 ^ e) k ∷ bs;
  returns =
      rw (eq, allocate_bits)
        (rw (
          mask_fits e he,
          offsets_to_frame-ok i k (omega (arith, pow-pos e)) fits,
          Valid.new-ok (frame ((i * 8 + k) * 4096)) (2 ^ e) (omega (arith, pow-pos e)),
        ));
  same_length = refl;
  bytes = (clear_group-lt e b k (omega arith) hb (omega (arith, pow-pos e)), hbs);
  grants = granted_head e i k b bs he hb inside al set;
}

allocate_bits-Allocates :
    (e i : ℕ) (bs : Bitmap)
    → e < 2
    → IsBytes bs
    → (i + length bs) * 32768 < u64_end
    → Allocates (2 ^ e) i bs (allocate_bits (2 ^ e) i bs)
allocate_bits-Allocates e i [] he hbs fits = record {
  result = none;
  after = [];
  returns = unfold allocate_bits in refl;
  same_length = refl;
  bytes = tt;
  grants = refused refl refl (λ n al inside all. absurd (omega (arith, pow-pos e)));
}
allocate_bits-Allocates e i (b ∷ bs) he hbs fits =
    round-Allocates e i b bs (search b (2 ^ e)) he hbs.0 hbs.1 (omega arith) refl
      (search-Found e b he hbs.0) (allocate_bits-Allocates e (i + 1) bs he hbs.1 (omega arith))

-- Allocating one frame or two, from a bitmap of bytes whose frames all have addresses, does not
-- panic. It returns an aligned range of frames that were free, and marks those and no others as
-- in use; or it returns none and changes nothing, when no aligned frames of that number are free.
pub allocate_range-Allocates :
    (order : ℕ) (bitmap : Bitmap)
    → order < 2
    → IsBytes bitmap
    → Addressable bitmap
    → Allocates (2 ^ order) 0 bitmap (allocate_range order bitmap)
allocate_range-Allocates order bitmap h hb ha =
    rw (small order bitmap h) (allocate_bits-Allocates order 0 bitmap h hb (omega arith))
  where
    small : (o : ℕ) (bs : Bitmap) → o < 2 → allocate_range o bs ≡ allocate_bits (2 ^ o) 0 bs
    small zero bs ho = unfold allocate_range in refl
    small (suc zero) bs ho = unfold allocate_range in refl
    small (suc (suc o)) bs ho = absurd (omega arith)
