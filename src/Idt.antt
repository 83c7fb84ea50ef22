-- ===== src/Idt.antt =====
-- The interrupt descriptor table of src/idt.rs. The table itself is `InterruptDescriptorTable` of
-- the x86_64 crate: 256 entries, with a field for each exception, and an index operator that
-- panics at some exceptions. Which it takes is the parameter `indexable`.
use testos.Base.{
  ℕ, zero, suc, ◌+◌, Bool, true, false, not, Option, none, some, List, [], ◌∷◌, Outcome, ok, panic,
  ◌>>=◌, ◌>>◌, assert, set, replicate,
}

-- The functions that entries point to: a handler of `idt.rs`, named by what it is installed
-- for, or one of `handle_irq0` to `handle_irq15` of `pic.rs`.
pub data Gate : Type 0 where
  divide_error debug nmi breakpoint overflow bound_range_exceeded invalid_opcode : Gate
  device_not_available double_fault unrecognized_exception invalid_tss segment_not_present : Gate
  stack_segment_fault general_protection_fault page_fault x87_floating_point : Gate
  alignment_check machine_check simd_floating_point virtualization security_exception : Gate
  irq : ℕ → Gate

abbrev pub Table : Type 0
Table = List (Option Gate)

-- `IDT`, with `IS_INITIALIZED`.
pub record Idt : Type 0 where
  pub is_initialized : Bool
  pub table : Table

abbrev pub empty : Idt
empty = record { is_initialized = false; table = replicate 256 none }

-- The handlers by the vectors of the fields that they are stored in.
abbrev pub exceptions : List (ℕ × Gate)
exceptions =
    (0, divide_error)
    ∷ (1, debug)
    ∷ (2, nmi)
    ∷ (3, breakpoint)
    ∷ (4, overflow)
    ∷ (5, bound_range_exceeded)
    ∷ (6, invalid_opcode)
    ∷ (7, device_not_available)
    ∷ (8, double_fault)
    ∷ (9, unrecognized_exception)
    ∷ (10, invalid_tss)
    ∷ (11, segment_not_present)
    ∷ (12, stack_segment_fault)
    ∷ (13, general_protection_fault)
    ∷ (14, page_fault)
    ∷ (16, x87_floating_point)
    ∷ (17, alignment_check)
    ∷ (18, machine_check)
    ∷ (19, simd_floating_point)
    ∷ (20, virtualization)
    ∷ (30, security_exception)
    ∷ []

abbrev pub store_all : List (ℕ × Gate) → Table → Table
store_all [] t = t
store_all ((v, g) ∷ gs) t = store_all gs (set t v (some g))

-- The default handlers all panic. An IRQ is handled by `pic.rs`, which `on_irq` stands for here.
unfoldable pub run_gate {ℓ} : {A : Type ℓ} → (ℕ → Outcome A) → Gate → Outcome A
run_gate on_irq (irq n) = on_irq n
run_gate on_irq _ = panic

module _ (indexable : ℕ → Bool) where
  -- The loop over `32..256`, by the number of entries left and the next one.
  unfoldable pub clear_from : ℕ → ℕ → Table → Outcome Table
  clear_from zero i t = ok t
  clear_from (suc n) i t = do assert (indexable i); clear_from n (i + 1) (set t i none)

  -- `init_impl`: it must be called once only. The handler of vector 9 goes through the index
  -- operator, as does the clearing of the vectors from 32 on.
  unfoldable pub init : Idt → Outcome Idt
  init idt = do
    assert (not idt.is_initialized)
    assert (indexable 9)
    table ← clear_from 224 32 (store_all exceptions idt.table)
    ok (record { is_initialized = true; table = table })

  unfoldable pub install_interrupt_handler : ℕ → Option Gate → Idt → Outcome Idt
  install_interrupt_handler num gate idt = do
    assert (indexable num)
    ok (record { is_initialized = idt.is_initialized; table = set idt.table num gate })
