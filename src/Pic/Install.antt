-- ===== src/Pic/Install.antt =====
-- What `install_irq_handler` does to the handlers and the masks, and the table of interrupts that
-- the two `init` functions leave.
use testos.Base.{
  ℕ, ◌-◌, ◌<◌, ◌≡◌, ◌⊎◌, inl, inr, refl, arith, Bool, true, false, Option, none, some, List, ltb,
  ◌==◌, if◌then◌else◌, Outcome, ok, is_none, length, get_or, set, le_or_lt, lt→ltb, le→not-ltb,
  get_elem?-eq-get_or, length-set, get_or-set_self, get_or-set_ne, ◌∙◌,
}
use testos.BitmapAllocator.Tables.{
  bit, bit-bit_or, reserve_mask, bit-clear_group, bit_or-lt, clear_group-lt,
}
use testos.Pic.{Pic, pic, IrqHandlerFunc, set_mask, store_handler, install_irq_handler}

-- Whether IRQ `n` is masked: 1 if it is.
abbrev pub masked : Pic → ℕ → ℕ
masked p n = if ltb n 8 then bit p.mask_1 n else bit p.mask_2 (n - 8)

abbrev pub handler_of : Pic → ℕ → Option IrqHandlerFunc
handler_of p n = get_or p.handlers n none

-- Sixteen slots for handlers, and masks that are bytes.
pub record IsPic (p : Pic) : Type 0 where
  pub slots : length p.handlers ≡ 16
  pub byte_1 : p.mask_1 < 256
  pub byte_2 : p.mask_2 < 256

set_mask-bit :
    (m k j : ℕ) (masks : Bool)
    → m < 256
    → k < 8
    → j < 8
    → bit (set_mask m k masks) j ≡ (if j == k then (if masks then 1 else 0) else bit m j)
unfolding set_mask
set_mask-bit m k j true hm hk hj = bit-bit_or m k j hm hk hj
set_mask-bit m k j false hm hk hj =
    rw (reserve_mask m k hm hk) (ground (arith, bit-clear_group 0 m k j (omega arith) hm hk hj))

set_mask-lt : (m k : ℕ) (masks : Bool) → m < 256 → k < 8 → set_mask m k masks < 256
unfolding set_mask
set_mask-lt m k true hm hk = bit_or-lt m k hm hk
set_mask-lt m k false hm hk = rw (reserve_mask m k hm hk) (clear_group-lt 0 m k (omega arith) hm hk)

-- The state in which IRQ `n` has the handler `h`, and is masked if that is none; all else is as
-- before.
pub record IsInstalled (n : ℕ) (h : Option IrqHandlerFunc) (p : Pic) (r : Outcome Pic)
    : Type 0 where
  pub after : Pic
  pub returns : r ≡ ok after
  pub valid : IsPic after
  pub handlers : (j : ℕ) → j < 16 → handler_of after j ≡ (if j == n then h else handler_of p j)
  pub masks :
      (j : ℕ)
      → j < 16
      → masked after j ≡ (if j == n then (if is_none h then 1 else 0) else masked p j)

store_handler-ok :
    (hs : List (Option IrqHandlerFunc)) (n : ℕ) (h : Option IrqHandlerFunc)
    → n < length hs
    → (h ≡ none) ⊎ (get_or hs n none ≡ none)
    → store_handler hs n h ≡ ok (set hs n h)
unfolding store_handler
store_handler-ok hs n none inside free_slot = refl
store_handler-ok hs n (some h) inside (inl e) = absurd (cc)
store_handler-ok hs n (some h) inside (inr e) = rw (get_elem?-eq-get_or hs n none inside, e)

-- For an IRQ below 16 whose slot is empty, or to remove a handler, `install_irq_handler` stores
-- the handler and unmasks the IRQ, or masks it if there is none; it changes no other IRQ.
pub install_irq_handler-IsInstalled :
    (n : ℕ) (h : Option IrqHandlerFunc) (p : Pic)
    → IsPic p
    → n < 16
    → (h ≡ none) ⊎ (handler_of p n ≡ none)
    → IsInstalled n h p (install_irq_handler n h p)
unfolding install_irq_handler
install_irq_handler-IsInstalled n h p v small free_slot =
    rw (lt→ltb n 16 small, store_handler-ok p.handlers n h (omega (arith, v.slots)) free_slot)
      (elim (le_or_lt 8 n) [
        | inr first ↦ rw (lt→ltb n 8 first) (record {
          after = pic (set p.handlers n h) (set_mask p.mask_1 n (is_none h)) p.mask_2 _;
          returns = refl;
          valid = record {
            slots = length-set p.handlers n h ∙ v.slots;
            byte_1 = set_mask-lt p.mask_1 n (is_none h) v.byte_1 first;
            byte_2 = v.byte_2;
          };
          handlers = λ j hj. stored j;
          masks = λ j hj. ground (arith, set_mask-bit p.mask_1 n j (is_none h) v.byte_1);
        })
        | inl second ↦ rw (le→not-ltb n 8 second) (record {
          after = pic (set p.handlers n h) p.mask_1 (set_mask p.mask_2 (n - 8) (is_none h)) _;
          returns = refl;
          valid = record {
            slots = length-set p.handlers n h ∙ v.slots;
            byte_1 = v.byte_1;
            byte_2 = set_mask-lt p.mask_2 (n - 8) (is_none h) v.byte_2 (omega arith);
          };
          handlers = λ j hj. stored j;
          masks =
              λ j hj. ground (arith, set_mask-bit p.mask_2 (n - 8) (j - 8) (is_none h) v.byte_2);
        })
      ])
  where
    stored : (j : ℕ) → get_or (set p.handlers n h) j none ≡ (if j == n then h else handler_of p j)
    stored j = ground (
      arith,
      get_or-set_self p.handlers n h none (omega (arith, v.slots)),
      get_or-set_ne p.handlers n j h none,
    )
