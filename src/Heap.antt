-- ===== src/Heap.antt =====
-- The heap of shared/src/memory/alloc/heap.rs. A free list is the list of the addresses of its
-- blocks, and all blocks of a list have the size of the list. Memory comes from a
-- `ChunkProvider`, which is a parameter: a state, and a function that gives the address and the
-- length of a slice for a number of chunks.
pub mod Key
pub mod Small
pub mod Checked
use testos.Base.{
  ℕ, zero, suc, ◌+◌, ◌-◌, ◌*◌, ◌/◌, ◌%◌, ◌≤◌, ◌<◌, Bool, true, false, Option, none, some, List, [],
  ◌∷◌, ltb, leb, ◌==◌, if◌then◌else◌, Outcome, ok, panic, ◌>>=◌, ◌>>◌, assert, unwrap, get_elem?,
  get_or, set, max,
}

-- `BLOCK_SIZES`, its length and its last element.
abbrev pub block_sizes : List ℕ
block_sizes = 16 ∷ 32 ∷ 64 ∷ 128 ∷ 256 ∷ []

abbrev pub num_block_sizes : ℕ
num_block_sizes = 5

abbrev pub maximal_block_size : ℕ
maximal_block_size = 256

-- `BlockSizeKey`, by its discriminant, and its `size`.
abbrev pub BlockSizeKey : Type 0
BlockSizeKey = ℕ

abbrev pub size_of : BlockSizeKey → ℕ
size_of key = get_or block_sizes key 0

-- `Layout`.
pub record Layout : Type 0 where
  pub size : ℕ
  pub align : ℕ

-- What `binary_search` on the sorted sizes answers, found or not: the place of the first one that
-- is not below the size.
abbrev pub place_in : List ℕ → ℕ → ℕ
place_in [] size = 0
place_in (s ∷ ss) size = let later = place_in ss size + 1 in if leb size s then 0 else later

unfoldable pub key_for_size_align : ℕ → ℕ → Option BlockSizeKey
key_for_size_align size align =
    let ndx = place_in block_sizes (max size align) in
    if ndx == num_block_sizes then none else some ndx

-- A slice of bytes, by its address and length.
pub record Slice : Type 0 where
  pub address : ℕ
  pub length : ℕ

abbrev pub slice : ℕ → ℕ → Slice
slice a n = record { address = a; length = n }

abbrev pub FreeLists : Type 0
FreeLists = List (List ℕ)

-- The first list from `key` on that is not empty, and its first block.
unfoldable pub first_fit : FreeLists → ℕ → ℕ → Option (ℕ × ℕ × List ℕ)
first_fit [] key i = none
first_fit (l ∷ ls) zero i = elim l [ [] ↦ first_fit ls zero (i + 1) | b ∷ bs ↦ some (i, b, bs) ]
first_fit (l ∷ ls) (suc key) i = first_fit ls key (i + 1)

-- The `while` loop of `fetch_chunk`, which cuts blocks off the front of the chunk. The fuel is the
-- number of blocks in it and one more; without fuel the loop has not ended (Heap/Small.antt).
unfoldable pub build_blocks : ℕ → ℕ → ℕ → List ℕ → Outcome (List ℕ)
build_blocks zero address len blocks = panic
build_blocks (suc fuel) address len blocks = elim (leb maximal_block_size len) [
  | true ↦ do
    assert (address % 8 == 0)
    build_blocks fuel (address + maximal_block_size) (len - maximal_block_size) (address ∷ blocks)
  | false ↦ ok blocks
]

module _ {ℓ} {S : Type ℓ} (provide : S → ℕ → Slice × S) (chunk_size : ℕ) where
  pub record Heap : Type ℓ where
    pub free_lists : FreeLists
    pub provider : S

  abbrev pub heap : FreeLists → S → Heap
  heap ls p = record { free_lists = ls; provider = p }

  unfoldable pub new : S → Outcome Heap
  new p = do assert (leb maximal_block_size chunk_size); ok (heap ([] ∷ [] ∷ [] ∷ [] ∷ [] ∷ []) p)

  -- A `FreeBlockData` is 16 bytes and aligned to 8.
  unfoldable pub fetch_chunk : Heap → Outcome Heap
  fetch_chunk h =
      let (chunk, p) = provide h.provider 1 in
      do
        assert (chunk.length == chunk_size)
        assert (chunk.address % chunk_size == 0)
        assert (chunk.address % 8 == 0)
        assert (leb 16 chunk.length)
        old ← unwrap (get_elem? h.free_lists 4)
        blocks ← build_blocks (chunk.length / maximal_block_size + 1) chunk.address chunk.length old
        ok (heap (set h.free_lists 4 blocks) p)

  -- The block that `allocate_small` takes off its list.
  unfoldable pub take_block : Layout → Heap → ℕ → ℕ → List ℕ → Outcome (Slice × Heap)
  take_block layout h i block rest = do
    assert (block % layout.align == 0)
    assert (leb layout.size (size_of i))
    ok (slice block layout.size, heap (set h.free_lists i rest) h.provider)

  -- `allocate_small`, which calls itself after a chunk was fetched. The fuel is the number of calls
  -- (see Heap/Small.antt).
  unfoldable pub allocate_small : ℕ → BlockSizeKey → Layout → Heap → Outcome (Slice × Heap)
  allocate_small zero key layout h = panic
  allocate_small (suc fuel) key layout h = elim (first_fit h.free_lists key 0) [
    | some (i, block, rest) ↦ take_block layout h i block rest
    | none ↦ do h' ← fetch_chunk h; allocate_small fuel key layout h'
  ]

  unfoldable pub allocate : Layout → Heap → Outcome (Slice × Heap)
  allocate layout h = elim (key_for_size_align layout.size layout.align) [
    | some key ↦ allocate_small 2 key layout h
    | none ↦
        let (chunk, p) = provide h.provider ((layout.size + (chunk_size - 1)) / chunk_size) in
        ok (chunk, heap h.free_lists p)
  ]
