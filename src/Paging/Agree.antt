-- ===== src/Paging/Agree.antt =====
-- Changes of memory that leave the tree of tables as it is: the walk is the same.
use testos.Base.{
  ℕ, ◌<◌, ◌≤◌, ◌≡◌, ◌≢◌, ◌⊎◌, inl, inr, refl, ap, ◌∙◌, arith, true, true_ne_false, sym, Option,
  some, Option-cases, ◌∷◌, [], length, Outcome,
}
use testos.Addr.{Address}
use testos.Page.{Page, l1_index}
use testos.Paging.{PageTableEntry, get_addr}
use testos.Paging.Action.{Memory}
use testos.Paging.Entry.{is_present}
use testos.Paging.Walk.{
  Way, way_to, points_to, next_table, table_at, leaf_of, lookup, IsTree, table_at-placed,
}

-- `after` is `before` with entry `i` of table `t` replaced.
pub record IsReplaced (before after : Memory) (t : Address) (i : ℕ) (e : PageTableEntry)
    : Type 0 where
  pub here : after t i ≡ e
  pub elsewhere : (x : Address) (j : ℕ) → (x ≢ t) ⊎ (j ≢ i) → after x j ≡ before x j

pub here_or_elsewhere :
    (t : Address) (i : ℕ) (x : Address) (j : ℕ) → ((x ≡ t) × (j ≡ i)) ⊎ ((x ≢ t) ⊎ (j ≢ i))
here_or_elsewhere t i x j = ground arith

pub same_depth : (o : Option Way) (a b : Way) → o ≡ some a → o ≡ some b → length a ≡ length b
same_depth o a b ea eb = ground arith

module _ {translator : Address → Outcome (Option Address)} {root : Address} {m : Memory}
    {place : Address → Option Way} (tree : IsTree translator root m place) (m' : Memory) where
  -- The entries above the leaves point to the same tables.
  pub table_at-agree :
      ((x : Address) (way : Way) (j : ℕ)
        → place x ≡ some way
        → length way < 3
        → points_to translator (m' x j) ≡ points_to translator (m x j))
      → (way : Way) → length way ≤ 3
      → table_at translator root m' way ≡ table_at translator root m way
  table_at-agree agree [] short = refl
  table_at-agree agree (j ∷ way) short =
      ap (λ t. next_table translator m' t j) (table_at-agree agree way (omega arith))
      ∙ elim (Option-cases (table_at translator root m way)) [
        | inl nowhere ↦ rw nowhere refl
        | inr (x, up) ↦
            rw up (agree x way j (table_at-placed tree way (omega arith) x up) (omega arith))
      ]

  -- So do the leaves.
  pub lookup-agree :
      ((x : Address) (way : Way) (j : ℕ)
        → place x ≡ some way
        → length way < 3
        → points_to translator (m' x j) ≡ points_to translator (m x j))
      → ((x : Address) (way : Way) (j : ℕ) → place x ≡ some way → length way ≡ 3 → m' x j ≡ m x j)
      → (p : Page) → lookup translator root m' p ≡ lookup translator root m p
  lookup-agree above leaves p =
      ap (λ t. leaf_of m' t (l1_index p)) (table_at-agree above (way_to p) (omega arith))
      ∙ elim (Option-cases (table_at translator root m (way_to p))) [
        | inl nowhere ↦ rw nowhere refl
        | inr (x, up) ↦
            rw
              (
                up,
                leaves x (way_to p) (l1_index p)
                    (table_at-placed tree (way_to p) (omega arith) x up) refl,
              )
              refl
      ]

  -- An entry that is in use above the leaves, and keeps its address, may change its flags.
  module _ (t : Address) (way : Way) (i : ℕ) (e : PageTableEntry) (at : place t ≡ some way)
      (short : length way < 3) (was_present : is_present (m t i) ≡ true)
      (present : is_present e ≡ true) (same : get_addr e ≡ get_addr (m t i))
      (change : IsReplaced m m' t i e) where
    flags_points_to :
        (x : Address) (j : ℕ) → points_to translator (m' x j) ≡ points_to translator (m x j)
    flags_points_to x j = elim (here_or_elsewhere t i x j) [
      | inl (ex, ej) ↦ rw (ex, ej, change.here, present, was_present, same) refl
      | inr other ↦ rw (change.elsewhere x j other) refl
    ]

    pub flags-table_at :
        (w : Way) → length w ≤ 3 → table_at translator root m' w ≡ table_at translator root m w
    flags-table_at = table_at-agree (λ x w j e s. flags_points_to x j)

    pub flags-lookup : (p : Page) → lookup translator root m' p ≡ lookup translator root m p
    flags-lookup =
        lookup-agree (λ x w j e s. flags_points_to x j)
          (λ x w j ex long. change.elsewhere x j (
            inl (λ xt.
              let d = same_depth (place t) way w at (ap place (sym xt) ∙ ex) in omega arith)))

    pub flags-IsTree : IsTree translator root m' place
    flags-IsTree = record {
      at_root = tree.at_root;
      child = λ x w j ex s p. elim (here_or_elsewhere t i x j) [
        | inl (xt, ji) ↦
            rw (xt, ji, change.here, same) (tree.child t w i (ap place (sym xt) ∙ ex) s was_present)
        | inr other ↦
            rw (change.elsewhere x j other)
              (tree.child x w j ex s (ap is_present (sym (change.elsewhere x j other)) ∙ p))
      ];
      blank = λ x w j ex s p. elim (here_or_elsewhere t i x j) [
        | inl (xt, ji) ↦
            absurd
              (true_ne_false (sym present ∙ ap is_present (sym change.here) ∙ rw (← xt, ← ji) p))
        | inr other ↦
            rw (change.elsewhere x j other)
              (tree.blank x w j ex s (ap is_present (sym (change.elsewhere x j other)) ∙ p))
      ];
    }
