-- ===== src/Paging/Action.antt =====
-- What `Mapper` of src/mm/paging.rs works on: page tables in memory, and code that changes them,
-- may return an error and may panic. Tables stand in memory by their virtual address, the root
-- table too, so that two references to one table see each other's writes.
use testos.Base.{
  Bool, true, false, ◌&&◌, ◌==◌, ℕ, Option, none, some, if◌then◌else◌, Outcome, ok, panic,
}
use testos.Addr.{Address}
use testos.Frame.{Frame}
use testos.Paging.{PageTable, PageTableEntry}

pub data MapError : Type 0 where
  frame_allocation_failed translation_failed : MapError

-- `Result<A, MapError>`.
pub data Result {ℓ} (A : Type ℓ) : Type ℓ where
  done : A → Result A
  failed : MapError → Result A

abbrev pub Memory : Type 0
Memory = Address → PageTable

-- A mapper: the address of the root table, and the two closures.
pub record Mapper {ℓ} (S : Type ℓ) : Type ℓ where
  pub level_4 : Address
  pub translator : Address → Outcome (Option Address)
  pub frame_allocator : S → Outcome (Option Frame × S)

pub record State {ℓ} (S : Type ℓ) : Type ℓ where
  pub memory : Memory
  pub allocator : S

abbrev pub state {ℓ} : {S : Type ℓ} → Memory → S → State S
state m a = record { memory = m; allocator = a }

-- Code that changes the state, and ends with a value, an error or a panic.
abbrev pub Action {ℓ κ} : Type ℓ → Type κ → Type (ℓ ⊔ κ)
Action S A = State S → Outcome (Result A × State S)

-- `?` on the result of a call, and what follows.
abbrev pub after {ℓ κ μ} :
    {S : Type ℓ} {A : Type κ} {B : Type μ}
    → Outcome (Result A × State S)
    → (A → Action S B)
    → Outcome (Result B × State S)
after panic f = panic
after (ok (failed e, s)) f = ok (failed e, s)
after (ok (done a, s)) f = f a s

infixl 5 ◌>>=◌ ◌>>◌
abbrev pub ◌>>=◌ {ℓ κ μ} :
    {S : Type ℓ} {A : Type κ} {B : Type μ} → Action S A → (A → Action S B) → Action S B
◌>>=◌ m f s = after (m s) f

abbrev pub ◌>>◌ {ℓ κ} : {S : Type ℓ} {B : Type κ} → Action S (Unit {0}) → Action S B → Action S B
m >> k = m >>= λ _. k

abbrev pub write_table : Memory → Address → PageTable → Memory
write_table m t table a = if a == t then table else m a

abbrev pub write_entry : Memory → Address → ℕ → PageTableEntry → Memory
write_entry m t i e a j = if (a == t) && (j == i) then e else m a j

module _ {ℓ} {S : Type ℓ} where
  abbrev pub pure {κ} : {A : Type κ} → A → Action S A
  pure a s = ok (done a, s)

  -- Code that has no effect but may panic.
  abbrev pub lift {κ} : {A : Type κ} → Outcome A → Action S A
  lift panic s = panic
  lift (ok a) s = ok (done a, s)

  -- `ok_or(error)?`.
  abbrev pub ok_or {κ} : {A : Type κ} → Option A → MapError → Action S A
  ok_or none e s = ok (failed e, s)
  ok_or (some a) e s = ok (done a, s)

  abbrev pub must : Bool → Action S (Unit {0})
  must true s = ok (done tt, s)
  must false s = panic

  -- The entry that `&mut table.entries[i]` refers to.
  abbrev pub load : Address → ℕ → Action S PageTableEntry
  load t i s = ok (done (s.memory t i), s)

  abbrev pub store : Address → ℕ → PageTableEntry → Action S (Unit {0})
  store t i e s = ok (done tt, state (write_entry s.memory t i e) s.allocator)

  -- `ptr::write` of a whole table.
  abbrev pub store_table : Address → PageTable → Action S (Unit {0})
  store_table t table s = ok (done tt, state (write_table s.memory t table) s.allocator)

  abbrev pub take_frame : Outcome (Option Frame × S) → Action S (Option Frame)
  take_frame panic s = panic
  take_frame (ok (f, rest)) s = ok (done f, state s.memory rest)

  -- The call of the frame allocator.
  abbrev pub get_frame : Mapper S → Action S (Option Frame)
  get_frame mapper s = take_frame (mapper.frame_allocator s.allocator) s
