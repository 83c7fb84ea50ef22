-- ===== src/Heap/Checked.antt =====
-- `CheckedHeap` of shared/src/memory/alloc/heap.rs: a heap behind a lock that panics instead of waiting.
use testos.Base.{ℕ, Bool, false, not, ◌==◌, if◌then◌else◌, Outcome, ok, ◌>>=◌, ◌>>◌, assert}
use testos.Heap.{Layout, Slice, Heap, allocate}

-- `Result<NonNull<[u8]>, AllocError>`.
pub data AllocResult : Type 0 where
  allocated : Slice → AllocResult
  alloc_error : AllocResult

module _ {ℓ} {S : Type ℓ} (provide : S → ℕ → Slice × S) (chunk_size : ℕ) where
  pub record CheckedHeap : Type ℓ where
    pub heap : Heap provide chunk_size
    pub locked : Bool

  abbrev pub checked_heap : Heap provide chunk_size → Bool → CheckedHeap
  checked_heap h b = record { heap = h; locked = b }

  unfoldable pub get : CheckedHeap → Outcome (Heap provide chunk_size)
  get c = do assert (not c.locked); ok c.heap

  unfoldable pub alloc : Layout → CheckedHeap → Outcome (ℕ × CheckedHeap)
  alloc layout c = do
    h ← get c
    (block, after) ← allocate provide chunk_size layout h
    ok (block.address, checked_heap after false)

  unfoldable pub dealloc : ℕ → Layout → CheckedHeap → CheckedHeap
  dealloc ptr layout c = c

  unfoldable pub allocate_checked : Layout → CheckedHeap → Outcome (AllocResult × CheckedHeap)
  allocate_checked layout c = if c.locked then ok (alloc_error, c) else (do
    (block, after) ← allocate provide chunk_size layout c.heap
    ok (if block.address == 0 then alloc_error else allocated block, checked_heap after false))

  unfoldable pub deallocate : ℕ → Layout → CheckedHeap → CheckedHeap
  deallocate ptr layout c = c
