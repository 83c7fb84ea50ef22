-- ===== src/Heap/Small.antt =====
-- Small allocations: blocks of 256 bytes, cut from chunks of 4096 bytes, the default size.
use native.Mathlib.Nat.{mod-mod_of_dvd, dvd_of_mod-eq-zero, zero-mod}
use testos.Base.{
  ℕ, zero, suc, ◌+◌, ◌-◌, ◌*◌, ◌/◌, ◌%◌, ◌≤◌, ◌<◌, ◌≡◌, ◌⊎◌, inl, inr, refl, sym, ap, ◌∙◌, arith,
  true, none, some, List, [], ◌∷◌, ◌++◌, append-nil, ◌==◌, Outcome, ok, All, le→leb, lt→not-leb,
  le_or_lt,
}
use testos.Heap.{
  Slice, slice, Layout, FreeLists, Heap, heap, first_fit, build_blocks, fetch_chunk, take_block,
  allocate_small,
}

-- Blocks of 256 bytes that are aligned to their size and do not overlap, from high to low.
abbrev pub AreBlocks : List ℕ → Type 0
AreBlocks [] = Unit {0}
AreBlocks (b ∷ bs) = (b % 256 ≡ 0) × All (λ c. c + 256 ≤ b) bs × AreBlocks bs

-- The `n` blocks of 256 bytes from an address on, the last one first.
abbrev pub cut : ℕ → ℕ → List ℕ
cut zero address = []
cut (suc n) address = (address + n * 256) ∷ cut n address

cut-next :
    (n address : ℕ) (bs : List ℕ)
    → cut (suc n) address ++ bs ≡ cut n (address + 256) ++ (address ∷ bs)
cut-next zero address bs = let e : address + 0 * 256 ≡ address = omega arith in rw e refl
cut-next (suc n) address bs =
    let e : address + suc n * 256 ≡ address + 256 + n * 256 = omega arith in
    rw e (ap (λ r. (address + 256 + n * 256) ∷ r) (cut-next n address bs))

build_more :
    (fuel address len : ℕ) (blocks : List ℕ)
    → 256 ≤ len
    → address % 256 ≡ 0
    → build_blocks (suc fuel) address len blocks
      ≡ build_blocks fuel (address + 256) (len - 256) (address ∷ blocks)
unfolding build_blocks
build_more fuel address len blocks more al =
    let aligned : (address % 8 == 0) ≡ true = ground arith in
    rw (le→leb 256 len more, aligned, build_blocks)

-- What is left of a chunk is cut into blocks.
build_blocks-ok :
    (fuel address len : ℕ) (blocks : List ℕ)
    → len < fuel * 256
    → address % 256 ≡ 0
    → AreBlocks blocks
    → All (λ c. c + 256 ≤ address) blocks
    → (out : List ℕ) × (build_blocks fuel address len blocks ≡ ok out)
      × AreBlocks out
      × (out ≡ cut (len / 256) address ++ blocks)
unfolding build_blocks
build_blocks-ok zero address len blocks h al b below = absurd (omega arith)
build_blocks-ok (suc fuel) address len blocks h al b below = elim (le_or_lt 256 len) [
  | inr short ↦
      let none_left : len / 256 ≡ 0 = omega arith in
      (blocks, rw (lt→not-leb 256 len short, build_blocks), b, rw none_left refl)
  | inl more ↦
      let one_more : len / 256 ≡ suc ((len - 256) / 256) = omega arith in
      let (out, run, fine, all) =
        build_blocks-ok fuel (address + 256) (len - 256) (address ∷ blocks) (omega arith)
          (omega arith) (al, below, b) (omega arith, higher blocks below) in
      (
        out,
        build_more fuel address len blocks more al ∙ run,
        fine,
        all ∙ sym (rw one_more (cut-next ((len - 256) / 256) address blocks)),
      )
]
  where
    higher : (cs : List ℕ) → All (λ c. c + 256 ≤ address) cs → All (λ c. c + 256 ≤ address + 256) cs
    higher [] a = tt
    higher (c ∷ cs) a = (omega (arith, a.0), higher cs a.1)

-- Only the list of the largest blocks is ever filled.
abbrev pub lists_of : List ℕ → FreeLists
lists_of bs = [] ∷ [] ∷ [] ∷ [] ∷ bs ∷ []

first_fit-some :
    (key b : ℕ) (bs : List ℕ) → key < 5 → first_fit (lists_of (b ∷ bs)) key 0 ≡ some (4, b, bs)
unfolding first_fit
first_fit-some zero b bs h = refl
first_fit-some (suc zero) b bs h = refl
first_fit-some (suc (suc zero)) b bs h = refl
first_fit-some (suc (suc (suc zero))) b bs h = refl
first_fit-some (suc (suc (suc (suc zero)))) b bs h = refl
first_fit-some (suc (suc (suc (suc (suc key))))) b bs h = absurd (omega arith)

first_fit-none : (key : ℕ) → first_fit (lists_of []) key 0 ≡ none
unfolding first_fit
first_fit-none zero = refl
first_fit-none (suc zero) = refl
first_fit-none (suc (suc zero)) = refl
first_fit-none (suc (suc (suc zero))) = refl
first_fit-none (suc (suc (suc (suc zero)))) = refl
first_fit-none (suc (suc (suc (suc (suc key))))) = refl

aligned_to : (b align : ℕ) → 256 % align ≡ 0 → b % 256 ≡ 0 → b % align ≡ 0
aligned_to b align al h =
    let same = mod-mod_of_dvd align b (dvd_of_mod-eq-zero align al) in
    sym same ∙ (rw (h, zero-mod align))

-- A provider of chunks as its contract asks: slices of one chunk, aligned to the chunk size.
abbrev pub Provides {ℓ} : {S : Type ℓ} → (S → ℕ → Slice × S) → Type ℓ
Provides {S = S} provide =
    (s : S) → ((provide s 1).0.length ≡ 4096) × ((provide s 1).0.address % 4096 ≡ 0)

-- What `allocate_small` should do with the blocks `bs`: the result starts at a block, and is
-- aligned as asked for and no larger than the block, which is no longer on the list. The block is
-- the first of the list; if the list was empty, it is the last 256 bytes of a new chunk, and the
-- list then holds the rest of the chunk.
pub record AllocatesSmall {ℓ} {S : Type ℓ} (provide : S → ℕ → Slice × S) (layout : Layout)
    (bs : List ℕ) (p : S) (r : Outcome (Slice × Heap provide 4096)) : Type ℓ where
  pub block : ℕ
  pub rest : List ℕ
  pub provider : S
  pub returns : r ≡ ok (slice block layout.size, heap provide 4096 (lists_of rest) provider)
  pub blocks : AreBlocks (block ∷ rest)
  pub aligned : block % layout.align ≡ 0
  pub fits : layout.size ≤ 256
  pub source :
      ((bs ≡ block ∷ rest) × (provider ≡ p))
      ⊎ ((bs ≡ []) × (provider ≡ (provide p 1).1) × (block ∷ rest ≡ cut 16 (provide p 1).0.address))

module _ {ℓ} {S : Type ℓ} (provide : S → ℕ → Slice × S) (contract : Provides provide) where
  fetch_run :
      (p : S) (out : List ℕ)
      → build_blocks 17 (provide p 1).0.address 4096 [] ≡ ok out
      → fetch_chunk provide 4096 (heap provide 4096 (lists_of []) p)
        ≡ ok (heap provide 4096 (lists_of out) (provide p 1).1)
  unfolding fetch_chunk
  fetch_run p out e =
      let al : (provide p 1).0.address % 4096 ≡ 0 = (contract p).1 in
      let to_8 : ((provide p 1).0.address % 8 == 0) ≡ true = ground arith in
      rw ((contract p).0, al, to_8, e)

  -- A fetched chunk fills the empty list with its sixteen blocks.
  fetch_chunk-ok :
      (p : S)
      → (fetch_chunk provide 4096 (heap provide 4096 (lists_of []) p)
          ≡ ok (heap provide 4096 (lists_of (cut 16 (provide p 1).0.address)) (provide p 1).1))
        × AreBlocks (cut 16 (provide p 1).0.address)
  fetch_chunk-ok p =
      let al : (provide p 1).0.address % 4096 ≡ 0 = (contract p).1 in
      let (out, run, fine, all) =
        build_blocks-ok 17 (provide p 1).0.address 4096 [] (omega arith) (omega arith) tt tt in
      let cut_out : out ≡ cut 16 (provide p 1).0.address =
        all ∙ append-nil (cut 16 (provide p 1).0.address) in
      (rw cut_out at (fetch_run p out run), rw cut_out at fine)

  -- With a block on the list, one call is enough.
  small_run :
      (fuel key : ℕ) (layout : Layout) (b : ℕ) (bs : List ℕ) (p : S)
      → key < 5
      → layout.size ≤ 256
      → b % layout.align ≡ 0
      → allocate_small provide 4096 (suc fuel) key layout (heap provide 4096 (lists_of (b ∷ bs)) p)
        ≡ ok (slice b layout.size, heap provide 4096 (lists_of bs) p)
  unfolding allocate_small take_block first_fit
  small_run fuel key layout b bs p hk fits al =
      rw (first_fit-some key b bs hk, al, le→leb layout.size 256 fits)

  small_fetch :
      (key : ℕ) (layout : Layout) (p : S) (h : Heap provide 4096)
      → fetch_chunk provide 4096 (heap provide 4096 (lists_of []) p) ≡ ok h
      → allocate_small provide 4096 2 key layout (heap provide 4096 (lists_of []) p)
        ≡ allocate_small provide 4096 1 key layout h
  unfolding allocate_small first_fit
  small_fetch key layout p h e = rw (first_fit-none key, e)

  -- `allocate_small` for an alignment that divides 256 and a size of 256 at most, with a provider
  -- that keeps its contract: it ends, within two calls, and gives a block as asked for that does
  -- not overlap those that stay on the list.
  pub allocate_small-AllocatesSmall :
      (key : ℕ) (layout : Layout) (bs : List ℕ) (p : S)
      → key < 5
      → layout.size ≤ 256
      → 256 % layout.align ≡ 0
      → AreBlocks bs
      → AllocatesSmall provide layout bs p
          (allocate_small provide 4096 2 key layout (heap provide 4096 (lists_of bs) p))
  allocate_small-AllocatesSmall key layout (b ∷ bs) p hk fits al fine =
      let to_align = aligned_to b layout.align al fine.0 in
      record {
        block = b;
        rest = bs;
        provider = p;
        returns = small_run 1 key layout b bs p hk fits to_align;
        blocks = fine;
        aligned = to_align;
        fits = fits;
        source = inl (refl, refl);
      }
  allocate_small-AllocatesSmall key layout [] p hk fits al fine =
      let (run, good) = fetch_chunk-ok p in
      let b = (provide p 1).0.address + 15 * 256 in
      let bs = cut 15 (provide p 1).0.address in
      let to_align = aligned_to b layout.align al good.0 in
      record {
        block = b;
        rest = bs;
        provider = (provide p 1).1;
        returns = small_fetch key layout p _ run ∙ small_run 0 key layout b bs _ hk fits to_align;
        blocks = good;
        aligned = to_align;
        fits = fits;
        source = inr (refl, refl, refl);
      }
