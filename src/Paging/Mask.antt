-- ===== src/Paging/Mask.antt =====
-- The mask for the flags of parent entries of src/mm/paging.rs: the code only adds flags, so that
-- no mask takes one away.
use testos.Base.{ℕ, ◌≡◌, refl, ap, ◌∙◌, Bool-cases, inl, inr, ok, panic, bit_and, bit_or, Outcome}
use testos.Base.Masks.{bit_and_assoc, bit_or-absorb}
use testos.Addr.{Address}
use testos.Frame.{Frame}
use testos.Page.{Page, l4_index, l3_index, l2_index}
use testos.Paging.Flags
use testos.Paging.Flags.{PageTableFlags}
use testos.Paging.{PageTableEntry, entry, set_flags}
use testos.Paging.Action.{Result, done, failed, Mapper, State, Action, after}
use testos.Paging.Mapper.{follow, next_level_alloc, map}
use testos.Paging.Entry.{is_present, get_flags-ok, contains-present}

set_flags-masked :
    (e : PageTableEntry) (mask flags : PageTableFlags)
    → set_flags e (bit_or (bit_and (bit_and e.raw Flags.all) mask) flags) ≡ set_flags e flags
unfolding set_flags
set_flags-masked e mask flags =
    ap (λ t. entry (bit_or e.raw (bit_or t flags))) (bit_and_assoc e.raw Flags.all mask)
    ∙ ap entry (bit_or-absorb e.raw (bit_and Flags.all mask) flags)

after-same {ℓ κ μ} :
    {S : Type ℓ} {A : Type κ} {B : Type μ} (r r' : Outcome (Result A × State S))
    (k k' : A → Action S B)
    → r ≡ r'
    → ((a : A) (s : State S) → k a s ≡ k' a s)
    → after r k ≡ after r' k'
after-same r panic k k' e same = rw e refl
after-same r (ok (failed x, s)) k k' e same = rw e refl
after-same r (ok (done a, s)) k k' e same = rw e (same a s)

module _ {ℓ} {S : Type ℓ} (mapper : Mapper S) (flags mask mask' : PageTableFlags) where
  follow-masked :
      (t : Address) (i : ℕ) (s : State S)
      → follow mapper t i flags mask s ≡ follow mapper t i flags mask' s
  unfolding follow
  follow-masked t i s =
      rw
        (
          get_flags-ok (s.memory t i),
          set_flags-masked (s.memory t i) mask flags,
          set_flags-masked (s.memory t i) mask' flags,
        )
        refl

  next_level_alloc-masked :
      (t : Address) (i : ℕ) (s : State S)
      → next_level_alloc mapper t i flags mask s ≡ next_level_alloc mapper t i flags mask' s
  unfolding next_level_alloc
  next_level_alloc-masked t i s = elim (Bool-cases (is_present (s.memory t i))) [
    | inl present ↦
        rw (get_flags-ok (s.memory t i), contains-present (s.memory t i), present)
          (follow-masked t i s)
    | inr absent ↦ rw (get_flags-ok (s.memory t i), contains-present (s.memory t i), absent) refl
  ]

-- The result of `map` does not depend on `parent_mask_flags`.
pub map-masked {ℓ} :
    {S : Type ℓ} (mapper : Mapper S) (p : Page) (f : Frame)
    (leaf_flags parent_set_flags mask mask' : PageTableFlags) (s : State S)
    → map mapper p f leaf_flags parent_set_flags mask s
      ≡ map mapper p f leaf_flags parent_set_flags mask' s
unfolding map
map-masked mapper p f leaf flags mask mask' s =
    let same = next_level_alloc-masked mapper flags mask mask' in
    after-same _ _ _ _ (same mapper.level_4 (l4_index p) s) (λ l3 s3.
      after-same _ _ _ _ (same l3 (l3_index p) s3)
        (λ l2 s2. after-same _ _ _ _ (same l2 (l2_index p) s2) (λ l1 s1. refl)))
