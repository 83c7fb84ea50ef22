-- ===== src/Pic/Table.antt =====
-- The table of interrupts after both `init` functions.
use testos.Base.{
  ℕ, zero, suc, ◌+◌, ◌-◌, ◌≤◌, ◌<◌, ◌≡◌, refl, arith, Bool, true, ◌&&◌, Option, none, some, List,
  [], ◌∷◌, ◌++◌, ltb, leb, if◌then◌else◌, ok, ◌>>=◌, set, get_elem?, get_or, ap, ◌∙◌, append_assoc,
}
use testos.Idt
use testos.Idt.{
  Idt, Table, Gate, irq, empty, exceptions, store_all, clear_from, install_interrupt_handler,
  divide_error, debug, nmi, breakpoint, overflow, bound_range_exceeded, invalid_opcode,
  device_not_available, double_fault, unrecognized_exception, invalid_tss, segment_not_present,
  stack_segment_fault, general_protection_fault, page_fault, x87_floating_point, alignment_check,
  machine_check, simd_floating_point, virtualization, security_exception,
}
use testos.Pic
use testos.Pic.{Pic, pic, Event, cmd_1, cmd_2, data_1, data_2, start_events, install_gates}

-- The gate that belongs at an interrupt vector, by the numbers of the x86 exceptions, with the sixteen
-- IRQs from 32 on and nothing at the others.
abbrev pub exception_gates : List (Option Gate)
exception_gates =
    some divide_error
    ∷ some debug
    ∷ some nmi
    ∷ some breakpoint
    ∷ some overflow
    ∷ some bound_range_exceeded
    ∷ some invalid_opcode
    ∷ some device_not_available
    ∷ some double_fault
    ∷ some unrecognized_exception
    ∷ some invalid_tss
    ∷ some segment_not_present
    ∷ some stack_segment_fault
    ∷ some general_protection_fault
    ∷ some page_fault
    ∷ none
    ∷ some x87_floating_point
    ∷ some alignment_check
    ∷ some machine_check
    ∷ some simd_floating_point
    ∷ some virtualization
    ∷ none
    ∷ none
    ∷ none
    ∷ none
    ∷ none
    ∷ none
    ∷ none
    ∷ none
    ∷ none
    ∷ some security_exception
    ∷ []

abbrev pub expected : ℕ → Option Gate
expected v = if leb 32 v && ltb v 48 then some (irq (v - 32)) else get_or exception_gates v none

-- What is written to the ports: the controllers are started with their vectors at 32 and 40, and then
-- all IRQs are masked.
abbrev pub expected_events : List Event
expected_events =
    cmd_1 17
    ∷ cmd_2 17
    ∷ data_1 32
    ∷ data_2 40
    ∷ data_1 4
    ∷ data_2 2
    ∷ data_1 1
    ∷ data_2 1
    ∷ data_1 255
    ∷ data_2 255
    ∷ []

abbrev cleared : ℕ → ℕ → Table → Table
cleared zero i t = t
cleared (suc n) i t = cleared n (i + 1) (set t i none)

clear_from-ok :
    (indexable : ℕ → Bool) (n i : ℕ) (t : Table)
    → ((k : ℕ) → 32 ≤ k → k < 256 → indexable k ≡ true)
    → 32 ≤ i
    → i + n ≤ 256
    → clear_from indexable n i t ≡ ok (cleared n i t)
unfolding clear_from
clear_from-ok indexable zero i t can from to = refl
clear_from-ok indexable (suc n) i t can from to =
    rw (can i from (omega arith))
      (clear_from-ok indexable n (i + 1) (set t i none) can (omega arith) (omega arith))

abbrev idt_with : Table → Idt
idt_with t = record { is_initialized = true; table = t }

abbrev tabulate : ℕ → ℕ → List (Option Gate)
tabulate zero i = []
tabulate (suc n) i = expected i ∷ tabulate n (i + 1)

tabulate-get : (n i v : ℕ) → v < n → get_elem? (tabulate n i) v ≡ some (expected (i + v))
tabulate-get zero i v h = absurd (omega arith)
tabulate-get (suc n) i zero h = let e : i + 0 ≡ i = omega arith in rw e
tabulate-get (suc n) i (suc v) h =
    let e : i + 1 + v ≡ i + suc v = omega arith in rw (← e) (tabulate-get n (i + 1) v (omega arith))

install_gates-ok :
    (indexable : ℕ → Bool)
    → ((k : ℕ) → 32 ≤ k → k < 256 → indexable k ≡ true)
    → install_gates indexable 16 0 (idt_with (cleared 224 32 (store_all exceptions empty.table)))
      ≡ ok (idt_with (tabulate 256 0))
unfolding install_gates install_interrupt_handler
install_gates-ok indexable can = rw (
  can 32 (omega arith) (omega arith),
  can 33 (omega arith) (omega arith),
  can 34 (omega arith) (omega arith),
  can 35 (omega arith) (omega arith),
  can 36 (omega arith) (omega arith),
  can 37 (omega arith) (omega arith),
  can 38 (omega arith) (omega arith),
  can 39 (omega arith) (omega arith),
  can 40 (omega arith) (omega arith),
  can 41 (omega arith) (omega arith),
  can 42 (omega arith) (omega arith),
  can 43 (omega arith) (omega arith),
  can 44 (omega arith) (omega arith),
  can 45 (omega arith) (omega arith),
  can 46 (omega arith) (omega arith),
  can 47 (omega arith) (omega arith),
)

-- After `idt::init` and `pic::init` from the empty table, where the table of the x86_64 crate can be
-- indexed at 9 and from 32 on: each exception has its handler at its x86 vector, the sixteen IRQs have
-- theirs from 32 on, and the other vectors below 256 have none; the controllers got their start
-- sequence with these vectors, and all IRQs are masked. The handlers of IRQs are as before.
pub init-expected :
    (indexable : ℕ → Bool) (p : Pic)
    → indexable 9 ≡ true
    → ((n : ℕ) → 32 ≤ n → n < 256 → indexable n ≡ true)
    → (idt : Idt) × ((Idt.init indexable empty >>= λ i. Pic.init indexable p i)
        ≡ ok (pic p.handlers 255 255 (p.events ++ expected_events), idt))
      × ((v : ℕ) → v < 256 → get_elem? idt.table v ≡ some (expected v))
unfolding Idt.init Pic.init
init-expected indexable p nine can = (
  idt_with (tabulate 256 0),
  rw
      (
        nine,
        clear_from-ok indexable 224 32 (store_all exceptions empty.table) can (omega arith)
            (omega arith),
        install_gates-ok indexable can,
      )
      (ap (λ es. ok (pic p.handlers 255 255 es, idt_with (tabulate 256 0)))
        (append_assoc (p.events ++ start_events) (data_1 255 ∷ []) (data_2 255 ∷ [])
          ∙ append_assoc p.events start_events (data_1 255 ∷ data_2 255 ∷ []))),
  λ v h. let e : 0 + v ≡ v = omega arith in rw e at (tabulate-get 256 0 v h),
)
