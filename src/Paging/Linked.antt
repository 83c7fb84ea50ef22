-- ===== src/Paging/Linked.antt =====
-- A memory in which a blank entry is made to point to a new table: nothing new is mapped.
use testos.Base.{
  ℕ, ◌<◌, ◌≤◌, ◌≡◌, ◌≢◌, ◌⊎◌, inl, inr, refl, ap, sym, ◌∙◌, arith, true, false, true_ne_false,
  Option, none, some, Option-cases, ◌∷◌, [], length, Outcome, ok, ◌==◌, if◌then◌else◌,
}
use testos.Addr.{Address}
use testos.Page.{Page, l1_index}
use testos.Paging.{PageTableEntry, get_addr, zero_entry}
use testos.Paging.Action.{Memory}
use testos.Paging.Entry.{is_present}
use testos.Paging.Walk.{Way, way_to, table_at, lookup, IsTree, IsTable, table_at-placed}
use testos.Paging.Agree.{here_or_elsewhere, same_depth}

-- Entry `i` of table `t` is replaced by `e`, and a table without entries stands at `w`.
pub record IsLinked (before after : Memory) (t : Address) (i : ℕ) (e : PageTableEntry) (w : Address)
    : Type 0 where
  pub here : after t i ≡ e
  pub new_table : (j : ℕ) → after w j ≡ zero_entry
  pub elsewhere : (x : Address) (j : ℕ) → x ≢ w → (x ≢ t) ⊎ (j ≢ i) → after x j ≡ before x j

-- The places with one more table.
abbrev pub add_place : (Address → Option Way) → Address → Way → Address → Option Way
add_place place w way x = if x == w then some way else place x

add_place-cases :
    (place : Address → Option Way) (w : Address) (new way : Way) (x : Address)
    → add_place place w new x ≡ some way
    → ((x ≡ w) × (new ≡ way)) ⊎ ((x ≢ w) × (place x ≡ some way))
add_place-cases place w new way x e = ground arith

add_place-old :
    (place : Address → Option Way) (w : Address) (new way : Way) (x : Address)
    → place w ≡ none
    → place x ≡ some way
    → (x ≢ w) × (add_place place w new x ≡ some way)
add_place-old place w new way x fresh e = let other = apart in (other, ground arith)
  where
    apart : x ≢ w
    apart xw = absurd (ground (arith, sym fresh ∙ ap place (sym xw) ∙ e))

module _ {translator : Address → Outcome (Option Address)} {root : Address} {m : Memory}
    {place : Address → Option Way} (tree : IsTree translator root m place) (m' : Memory)
    (t : Address) (way : Way) (i : ℕ) (e : PageTableEntry) (w : Address) (at : place t ≡ some way)
    (short : length way < 3) (was_absent : is_present (m t i) ≡ false)
    (present : is_present e ≡ true) (leads : translator (get_addr e) ≡ ok (some w))
    (at_table : IsTable w) (fresh : place w ≡ none) (change : IsLinked m m' t i e w) where
  -- A walk of four levels at most ends where it did, or at the new table.
  linked-table_at :
      (r : Way)
      → length r ≤ 3
      → (table_at translator root m' r ≡ table_at translator root m r)
        ⊎ ((table_at translator root m r ≡ none) × (table_at translator root m' r ≡ some w))
  linked-table_at [] le = inl refl
  linked-table_at (j ∷ r) le = elim (linked-table_at r (omega arith)) [
    | inl same ↦ elim (Option-cases (table_at translator root m r)) [
      | inl nowhere ↦ inl (rw (same, nowhere) refl)
      | inr (x, up) ↦ elim (here_or_elsewhere t i x j) [
        | inl (ex, ej) ↦ inr (
          rw (up, ex, ej, was_absent) refl,
          rw (same, up, ex, ej, change.here, present, leads) refl,
        )
        | inr other ↦
            let old =
              add_place-old place w [] r x fresh (table_at-placed tree r (omega arith) x up) in
            inl (rw (same, up, change.elsewhere x j old.0 other) refl)
      ]
    ]
    | inr (gone, new) ↦ inl (rw (new, gone, change.new_table j) refl)
  ]

  pub linked-keeps :
      (r : Way)
      → length r ≤ 3
      → (x : Address) → table_at translator root m r ≡ some x
      → table_at translator root m' r ≡ some x
  linked-keeps r le x up = elim (linked-table_at r le) [
    | inl same ↦ same ∙ up
    | inr (gone, _) ↦ absurd (ground (arith, sym gone ∙ up))
  ]

  pub linked-lookup : (p : Page) → lookup translator root m' p ≡ lookup translator root m p
  linked-lookup p = elim (linked-table_at (way_to p) (omega arith)) [
    | inl same ↦ elim (Option-cases (table_at translator root m (way_to p))) [
      | inl nowhere ↦ rw (same, nowhere) refl
      | inr (x, up) ↦
          let placed = table_at-placed tree (way_to p) (omega arith) x up in
          let old = add_place-old place w [] (way_to p) x fresh placed in
          let other : x ≢ t = λ xt.
            let d = same_depth (place t) way (way_to p) at (ap place (sym xt) ∙ placed) in
            omega arith in
          rw (same, up, change.elsewhere x (l1_index p) old.0 (inl other)) refl
    ]
    | inr (gone, new) ↦ rw (new, gone, change.new_table (l1_index p)) refl
  ]

  linked_child :
      (x : Address) (r : Way) (j : ℕ)
      → x ≢ w
      → place x ≡ some r
      → length r < 3
      → is_present (m' x j) ≡ true
      → (y : Address) × (translator (get_addr (m' x j)) ≡ ok (some y))
        × IsTable y
        × (add_place place w (i ∷ way) y ≡ some (j ∷ r))
  linked_child x r j old ex s p = elim (here_or_elsewhere t i x j) [
    | inl (xt, ji) ↦ (
      w,
      rw (xt, ji, change.here) leads,
      at_table,
      ground (arith, ji, sym at ∙ ap place (sym xt) ∙ ex),
    )
    | inr other ↦
        let kept = change.elsewhere x j old other in
        let c = tree.child x r j ex s (ap is_present (sym kept) ∙ p) in
        (
          c.0,
          ap (λ y. translator (get_addr y)) kept ∙ c.1,
          c.2,
          (add_place-old place w (i ∷ way) (j ∷ r) c.0 fresh c.3).1,
        )
  ]

  linked_blank :
      (x : Address) (r : Way) (j : ℕ)
      → x ≢ w
      → place x ≡ some r
      → length r < 3
      → is_present (m' x j) ≡ false
      → (m' x j).raw ≡ 0
  linked_blank x r j old ex s p = elim (here_or_elsewhere t i x j) [
    | inl (xt, ji) ↦
        absurd (true_ne_false (sym present ∙ ap is_present (sym change.here) ∙ rw (← xt, ← ji) p))
    | inr other ↦
        let kept = change.elsewhere x j old other in
        rw kept (tree.blank x r j ex s (ap is_present (sym kept) ∙ p))
  ]

  pub linked-IsTree : IsTree translator root m' (add_place place w (i ∷ way))
  linked-IsTree = record {
    at_root = (add_place-old place w (i ∷ way) [] root fresh tree.at_root).1;
    child = λ x r j ex s p. elim (add_place-cases place w (i ∷ way) r x ex) [
      | inl (xw, _) ↦ absurd (
          true_ne_false
            (sym p ∙ ap (λ y. is_present (m' y j)) xw ∙ ap is_present (change.new_table j)))
      | inr (old, e0) ↦ linked_child x r j old e0 s p
    ];
    blank = λ x r j ex s p. elim (add_place-cases place w (i ∷ way) r x ex) [
      | inl (xw, _) ↦ ap (λ y. (m' y j).raw) xw ∙ ap (λ y. y.raw) (change.new_table j)
      | inr (old, e0) ↦ linked_blank x r j old e0 s p
    ];
  }
