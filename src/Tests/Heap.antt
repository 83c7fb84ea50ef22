-- ===== src/Tests/Heap.antt =====
-- The theorems on the heap at concrete inputs.
use testos.Base.{ℕ, ◌+◌, ◌*◌, ◌≤◌, ◌<◌, ◌≡◌, ◌⊎◌, refl, arith, none, some, [], max}
use native.Mathlib.Nat.{mul-mod_left}
use testos.Heap.{Slice, slice, Layout, heap, size_of, key_for_size_align, allocate_small}
use testos.Heap.Key.{key_for_size_align_least}
use testos.Heap.Small.{Provides, AllocatesSmall, lists_of, allocate_small-AllocatesSmall}

key_for_size_align_least_example :
    ((256 < max 20 8) × (key_for_size_align 20 8 ≡ none))
    ⊎ ((key : ℕ) × (key_for_size_align 20 8 ≡ some key)
        × (key < 5)
        × (max 20 8 ≤ size_of key)
        × ((k : ℕ) → k < 5 → max 20 8 ≤ size_of k → key ≤ k))
key_for_size_align_least_example = key_for_size_align_least 20 8

-- Chunks one after the other.
abbrev next_chunk : ℕ → ℕ → Slice × ℕ
next_chunk n chunks = (slice (n * 4096) (chunks * 4096), n + chunks)

next_chunk-Provides : Provides next_chunk
next_chunk-Provides n = (refl, mul-mod_left n 4096)

abbrev twenty_bytes : Layout
twenty_bytes = record { size = 20; align = 8 }

allocate_small-AllocatesSmall_example :
    AllocatesSmall next_chunk twenty_bytes [] 7
      (allocate_small next_chunk 4096 2 1 twenty_bytes (heap next_chunk 4096 (lists_of []) 7))
allocate_small-AllocatesSmall_example =
    allocate_small-AllocatesSmall next_chunk next_chunk-Provides 1 twenty_bytes [] 7 (omega arith)
      (omega arith) refl tt
