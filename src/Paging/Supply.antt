-- ===== src/Paging/Supply.antt =====
-- What `Mapper` of src/mm/paging.rs relies on, in the frame allocator and in memory, and how a search
-- for a table ends.
use testos.Base.{◌%◌, ◌^◌, ◌<◌, ◌≡◌, ◌≢◌, Option, none, some, Outcome, ok}
use testos.Addr.{Address}
use testos.Frame.{Frame}
use testos.Page.{Page}
use testos.Paging.{PageTableEntry}
use testos.Paging.Action.{
  MapError, frame_allocation_failed, translation_failed, Result, done, failed, Mapper, State,
}
use testos.Paging.Walk.{Way, table_at, lookup, IsTree, IsTable}

-- What one call of a frame allocator does: it has no frame left, or gives one that the translator
-- knows no address for, or one at whose address a table can stand. `Free` are the addresses of the
-- frames that are still to come; the frame given is one of them, and none later.
pub data Takes {ℓ} {S : Type ℓ} (mapper : Mapper S) (Valid : S → Type 0)
    (Free : S → Address → Type 0) (a : S) : Type ℓ where
  is_empty :
      (rest : S)
      → mapper.frame_allocator a ≡ ok (none, rest)
      → Valid rest
      → ((x : Address) → Free rest x → Free a x)
      → Takes mapper Valid Free a
  no_address :
      (f : Frame) (rest : S)
      → mapper.frame_allocator a ≡ ok (some f, rest)
      → mapper.translator f.start ≡ ok none
      → Valid rest
      → ((x : Address) → Free rest x → Free a x)
      → Takes mapper Valid Free a
  gives :
      (f : Frame) (rest : S) (w : Address)
      → mapper.frame_allocator a ≡ ok (some f, rest)
      → f.start % 4096 ≡ 0
      → f.start < 2 ^ 48
      → mapper.translator f.start ≡ ok (some w)
      → IsTable w
      → Free a w
      → Valid rest
      → ((x : Address) → Free rest x → Free a x × (x ≢ w))
      → Takes mapper Valid Free a

-- The tables form a tree, and no free frame is in use.
pub record IsWellFormed {ℓ} {S : Type ℓ} (mapper : Mapper S) (Valid : S → Type 0)
    (Free : S → Address → Type 0) (s : State S) : Type 0 where
  pub place : Address → Option Way
  pub valid : Valid s.allocator
  pub tree : IsTree mapper.translator mapper.level_4 s.memory place
  pub fresh : (x : Address) → Free s.allocator x → place x ≡ none

module _ {ℓ} {S : Type ℓ} (mapper : Mapper S) where
  abbrev pub mapped : State S → Page → Option PageTableEntry
  mapped s p = lookup mapper.translator mapper.level_4 s.memory p

  abbrev pub reached : State S → Way → Option Address
  reached s way = table_at mapper.translator mapper.level_4 s.memory way

-- Why a call fails: the frame allocator has no frame, or gives one without an address. That was
-- the last call of it.
abbrev pub Refuses {ℓ} : {S : Type ℓ} → Mapper S → MapError → S → Type ℓ
Refuses {S = S} mapper frame_allocation_failed rest =
    (a : S) × (mapper.frame_allocator a ≡ ok (none, rest))
Refuses {S = S} mapper translation_failed rest =
    (a : S) × (f : Frame) × (mapper.frame_allocator a ≡ ok (some f, rest))
    × (mapper.translator f.start ≡ ok none)

-- The result of a call that looks for the table at the end of `way`.
pub data Arrives {ℓ} {S : Type ℓ} (mapper : Mapper S) (Valid : S → Type 0)
    (Free : S → Address → Type 0) (s : State S) (way : Way) (r : Outcome (Result Address × State S))
    : Type ℓ where
  arrives :
      (w : Address) (s' : State S)
      → r ≡ ok (done w, s')
      → IsWellFormed mapper Valid Free s'
      → reached mapper s' way ≡ some w
      → ((p : Page) → mapped mapper s' p ≡ mapped mapper s p)
      → Arrives mapper Valid Free s way r
  fails :
      (e : MapError) (s' : State S)
      → r ≡ ok (failed e, s')
      → Refuses mapper e s'.allocator
      → IsWellFormed mapper Valid Free s'
      → ((p : Page) → mapped mapper s' p ≡ mapped mapper s p)
      → Arrives mapper Valid Free s way r
