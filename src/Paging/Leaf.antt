-- ===== src/Paging/Leaf.antt =====
-- The write of a leaf entry, with which `Mapper::map` of src/mm/paging.rs ends.
use testos.Base.{
  ℕ, ◌<◌, ◌≡◌, ◌≢◌, ◌⊎◌, inl, inr, refl, ap, sym, ◌∙◌, arith, true, false, Option, some,
  Option-cases, length, if◌then◌else◌, Outcome,
}
use testos.Addr.{Address}
use testos.Page.{Page, l1_index}
use testos.Paging.{PageTableEntry}
use testos.Paging.Action.{Memory}
use testos.Paging.Entry.{is_present}
use testos.Paging.Walk.{
  Way, way_to, same_entry, points_to, table_at, lookup, IsTree, table_at-placed,
}
use testos.Paging.Agree.{IsReplaced, here_or_elsewhere, same_depth, table_at-agree}

same_entry-cases :
    (p q : Page)
    → ((same_entry p q ≡ true) × (way_to p ≡ way_to q) × (l1_index p ≡ l1_index q))
      ⊎ ((same_entry p q ≡ false) × ((way_to p ≢ way_to q) ⊎ (l1_index p ≢ l1_index q)))
same_entry-cases p q = ground arith

same_way : (o : Option Way) (a b : Way) → o ≡ some a → o ≡ some b → a ≡ b
same_way o a b ea eb = ground arith

module _ {translator : Address → Outcome (Option Address)} {root : Address} {m : Memory}
    {place : Address → Option Way} (tree : IsTree translator root m place) (m' : Memory) (p : Page)
    (t : Address) (e : PageTableEntry) (up : table_at translator root m (way_to p) ≡ some t)
    (present : is_present e ≡ true) (change : IsReplaced m m' t (l1_index p) e) where
  leaf_placed : place t ≡ some (way_to p)
  leaf_placed = table_at-placed tree (way_to p) (omega arith) t up

  above : (x : Address) (way : Way) → place x ≡ some way → length way < 3 → x ≢ t
  above x way ex s xt =
      let d = same_depth (place t) way (way_to p) (ap place (sym xt) ∙ ex) leaf_placed in
      omega arith

  kept : (x : Address) (way : Way) (j : ℕ) → place x ≡ some way → length way < 3 → m' x j ≡ m x j
  kept x way j ex s = change.elsewhere x j (inl (above x way ex s))

  pub leaf-IsTree : IsTree translator root m' place
  leaf-IsTree = record {
    at_root = tree.at_root;
    child = λ x w j ex s h.
        rw (kept x w j ex s) (tree.child x w j ex s (ap is_present (sym (kept x w j ex s)) ∙ h));
    blank = λ x w j ex s h.
        rw (kept x w j ex s) (tree.blank x w j ex s (ap is_present (sym (kept x w j ex s)) ∙ h));
  }

  same_tables :
      (q : Page) → table_at translator root m' (way_to q) ≡ table_at translator root m (way_to q)
  same_tables q =
      table_at-agree tree m' (λ x w j ex s. ap (points_to translator) (kept x w j ex s)) (way_to q)
        (omega arith)

  -- The page is mapped by the entry, and every other page as before.
  pub leaf-lookup :
      (q : Page)
      → lookup translator root m' q
        ≡ (if same_entry p q then some e else lookup translator root m q)
  leaf-lookup q = elim (same_entry-cases p q) [
    | inl (same, ways, last) ↦
        let at_t = ap (table_at translator root m) (sym ways) ∙ up in
        rw (same, same_tables q, at_t, ← last, change.here, present) refl
    | inr (differ, apart) ↦ elim (Option-cases (table_at translator root m (way_to q))) [
      | inl nowhere ↦ rw (differ, same_tables q, nowhere) refl
      | inr (x, at_x) ↦ elim (here_or_elsewhere t (l1_index p) x (l1_index q)) [
        | inl (xt, last) ↦
            let placed = table_at-placed tree (way_to q) (omega arith) x at_x in
            let ways =
              same_way (place t) (way_to p) (way_to q) leaf_placed (ap place (sym xt) ∙ placed) in
            elim apart [ inl off ↦ absurd (off ways) | inr off ↦ absurd (off (sym last)) ]
        | inr other ↦ rw (differ, same_tables q, at_x, change.elsewhere x (l1_index q) other) refl
      ]
    ]
  ]
