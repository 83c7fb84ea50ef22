-- ===== src/Paging/Walk.antt =====
-- What a memory of page tables maps, independent of the mapper: the walk from the root through
-- four levels, as the processor does it, and the shape of a memory in which the tables form a tree.
use testos.Base.{
  ℕ, ◌%◌, ◌<◌, ◌≤◌, ◌≡◌, ◌≢◌, refl, inl, inr, arith, Bool, true, false, Option, none, some,
  Option-cases, Bool-cases, List, [], ◌∷◌, length, Outcome, ok, panic, if◌then◌else◌, u64_end, ◌==◌,
  ◌&&◌,
}
use testos.Addr.{Address}
use testos.Page.{Page, l4_index, l3_index, l2_index, l1_index}
use testos.Paging.{PageTableEntry, get_addr}
use testos.Paging.Action.{Memory}
use testos.Paging.Entry.{is_present}

-- The way to a table from the root: the indices taken, the last one first.
abbrev pub Way : Type 0
Way = List ℕ

abbrev pub answer : Outcome (Option Address) → Option Address
answer panic = none
answer (ok a) = a

abbrev pub way_to : Page → Way
way_to p = l2_index p ∷ l3_index p ∷ l4_index p ∷ []

abbrev pub same_entry : Page → Page → Bool
same_entry p q =
    (l4_index p == l4_index q)
    && (l3_index p == l3_index q)
    && (l2_index p == l2_index q)
    && (l1_index p == l1_index q)

module _ (translator : Address → Outcome (Option Address)) where
  abbrev pub points_to : PageTableEntry → Option Address
  points_to e = if is_present e then answer (translator (get_addr e)) else none

  abbrev pub next_table : Memory → Option Address → ℕ → Option Address
  next_table m none i = none
  next_table m (some t) i = points_to (m t i)

  abbrev pub table_at : Address → Memory → Way → Option Address
  table_at root m [] = some root
  table_at root m (i ∷ way) = next_table m (table_at root m way) i

abbrev pub used : PageTableEntry → Option PageTableEntry
used e = if is_present e then some e else none

abbrev pub leaf_of : Memory → Option Address → ℕ → Option PageTableEntry
leaf_of m none i = none
leaf_of m (some t) i = used (m t i)

-- The entry in use for a page, if there is one.
abbrev pub lookup :
    (Address → Outcome (Option Address)) → Address → Memory → Page → Option PageTableEntry
lookup translator root m p = leaf_of m (table_at translator root m (way_to p)) (l1_index p)

-- One more step of a walk.
pub table_at-next :
    (translator : Address → Outcome (Option Address)) (root : Address) (m : Memory) (way : Way)
    (t : Address) (i : ℕ) (w : Address)
    → table_at translator root m way ≡ some t
    → is_present (m t i) ≡ true
    → translator (get_addr (m t i)) ≡ ok (some w)
    → table_at translator root m (i ∷ way) ≡ some w
table_at-next translator root m way t i w up present leads = rw (up, present, leads) refl

-- An address at which a table can stand.
pub record IsTable (t : Address) : Type 0 where
  pub not_null : t ≢ 0
  pub aligned : t % 4096 ≡ 0
  pub fits : t < u64_end

-- Every table in use has its place, the only way that leads to it: so tables form a tree and no
-- table is in use twice. An entry above the leaves is blank or points to the table of its place.
pub record IsTree (translator : Address → Outcome (Option Address)) (root : Address) (m : Memory)
    (place : Address → Option Way) : Type 0 where
  pub at_root : place root ≡ some []
  pub child :
      (t : Address) (way : Way) (i : ℕ)
      → place t ≡ some way
      → length way < 3
      → is_present (m t i) ≡ true
      → (w : Address) × (translator (get_addr (m t i)) ≡ ok (some w))
        × IsTable w
        × (place w ≡ some (i ∷ way))
  pub blank :
      (t : Address) (way : Way) (i : ℕ)
      → place t ≡ some way
      → length way < 3
      → is_present (m t i) ≡ false
      → (m t i).raw ≡ 0

module _ {translator : Address → Outcome (Option Address)} {root : Address} {m : Memory}
    {place : Address → Option Way} (tree : IsTree translator root m place) where
  child_placed :
      (t : Address) (way : Way) (i : ℕ)
      → place t ≡ some way
      → length way < 3
      → (w : Address) → points_to translator (m t i) ≡ some w
      → place w ≡ some (i ∷ way)
  child_placed t way i e short w h = elim (Bool-cases (is_present (m t i))) [
    | inl present ↦ let c = tree.child t way i e short present in ground arith
    | inr absent ↦ ground arith
  ]

  -- A walk that ends at a table went the way of its place.
  pub table_at-placed :
      (way : Way)
      → length way ≤ 3
      → (t : Address) → table_at translator root m way ≡ some t
      → place t ≡ some way
  table_at-placed [] short t e = ground (arith, tree.at_root)
  table_at-placed (i ∷ way) short t e = elim (Option-cases (table_at translator root m way)) [
    | inl nowhere ↦ absurd (ground arith)
    | inr (parent, up) ↦
        child_placed parent way i (table_at-placed way (omega arith) parent up) (omega arith) t
          (ground arith)
  ]
