-- ===== src/Pic.antt =====
-- The two interrupt controllers of src/pic.rs. The state holds the table of IRQ handlers, the
-- masks, which the data ports read and write when no command is active, and what was done, in
-- order: port writes and calls of handlers. A handler is a number, since the code only calls it.
pub mod Irq
pub mod Install
pub mod Table
use testos.Base.{
  ℕ, zero, suc, ◌+◌, ◌-◌, ◌*◌, ◌/◌, ◌%◌, ◌^◌, Bool, true, false, not, ◌&&◌, Option, none, some,
  List, [], ◌∷◌, ◌++◌, ltb, leb, ◌==◌, if◌then◌else◌, Outcome, ok, panic, ◌>>=◌, ◌>>◌, assert,
  unwrap, is_none, get_elem?, set, replicate, bit_and, bit_or,
}
use testos.Idt.{Idt, Gate, irq, run_gate, install_interrupt_handler}

abbrev pub IrqHandlerFunc : Type 0
IrqHandlerFunc = ℕ

pub data Event : Type 0 where
  cmd_1 cmd_2 data_1 data_2 : ℕ → Event
  called : IrqHandlerFunc → Event

pub record Pic : Type 0 where
  pub handlers : List (Option IrqHandlerFunc)
  pub mask_1 : ℕ
  pub mask_2 : ℕ
  pub events : List Event

abbrev pub pic : List (Option IrqHandlerFunc) → ℕ → ℕ → List Event → Pic
pic hs m n es = record { handlers = hs; mask_1 = m; mask_2 = n; events = es }

-- An event at the end of what was done.
abbrev pub log : Pic → Event → Pic
log p e = pic p.handlers p.mask_1 p.mask_2 (p.events ++ (e ∷ []))

abbrev pub irq_interrupt_offset : ℕ
irq_interrupt_offset = 32

abbrev pub irqs_per_pic : ℕ
irqs_per_pic = 8

abbrev pub command_read_isr : ℕ
command_read_isr = 0x0b

abbrev pub command_acknowledge_irq : ℕ
command_acknowledge_irq = 0x20

-- The writes that start the controllers. While a command is active, data that is written goes to it
-- and is no mask.
abbrev pub start_events : List Event
start_events =
    cmd_1 0x11
    ∷ cmd_2 0x11
    ∷ data_1 irq_interrupt_offset
    ∷ data_2 (irq_interrupt_offset + irqs_per_pic)
    ∷ data_1 4
    ∷ data_2 2
    ∷ data_1 1
    ∷ data_2 1
    ∷ []

abbrev pub start : Pic → Pic
start p = pic p.handlers p.mask_1 p.mask_2 (p.events ++ start_events)

-- Writes of a mask to the data ports.
abbrev pub write_mask_1 : ℕ → Pic → Pic
write_mask_1 m p = pic p.handlers m p.mask_2 (p.events ++ (data_1 m ∷ []))

abbrev pub write_mask_2 : ℕ → Pic → Pic
write_mask_2 m p = pic p.handlers p.mask_1 m (p.events ++ (data_2 m ∷ []))

-- `handle_irq0` to `handle_irq15` are installed one by one.
unfoldable pub install_gates : (ℕ → Bool) → ℕ → ℕ → Idt → Outcome Idt
install_gates indexable zero n idt = ok idt
install_gates indexable (suc left) n idt = do
  idt' ← install_interrupt_handler indexable (irq_interrupt_offset + n) (some (irq n)) idt
  install_gates indexable left (n + 1) idt'

unfoldable pub init : (ℕ → Bool) → Pic → Idt → Outcome (Pic × Idt)
init indexable p idt = do
  idt' ← install_gates indexable 16 0 idt
  ok (write_mask_2 0b11111111 (write_mask_1 0b11111111 (start p)), idt')

-- The new mask of `set_mask`. `1 << irq_line` and its complement are bytes.
unfoldable pub set_mask : ℕ → ℕ → Bool → ℕ
set_mask old_mask irq_line set_it =
    if set_it then bit_or old_mask (2 ^ irq_line) else bit_and old_mask (255 - 2 ^ irq_line)

-- The handlers after `install_irq_handler`.
unfoldable pub store_handler :
    List (Option IrqHandlerFunc)
    → ℕ
    → Option IrqHandlerFunc
    → Outcome (List (Option IrqHandlerFunc))
store_handler hs n none = ok (set hs n none)
store_handler hs n (some h) = do
  old ← unwrap (get_elem? hs n)
  assert (is_none old)
  ok (set hs n (some h))

unfoldable pub install_irq_handler : ℕ → Option IrqHandlerFunc → Pic → Outcome Pic
install_irq_handler irq_num handler p = do
  assert (ltb irq_num (irqs_per_pic * 2))
  hs ← store_handler p.handlers irq_num handler
  let should_mask = is_none handler
  if ltb irq_num 8
      then (let m = set_mask p.mask_1 irq_num should_mask in
          ok (write_mask_1 m (pic hs p.mask_1 p.mask_2 p.events)))
      else (let m = set_mask p.mask_2 (irq_num - 8) should_mask in
          ok (write_mask_2 m (pic hs p.mask_1 p.mask_2 p.events)))

-- `is_spurious`, with the bytes that the two data ports answer to a read after the command.
unfoldable pub is_spurious : ℕ → ℕ → ℕ → Pic → Bool × Pic
is_spurious isr_1 isr_2 irq_num p =
    if irq_num == 7
    then (not (bit_and isr_1 0b10000000 == 0), log p (cmd_1 command_read_isr))
    else if irq_num == 15
    then (
      not (bit_and isr_2 0b10000000 == 0),
      log (log p (cmd_2 command_read_isr)) (cmd_1 command_acknowledge_irq),
    )
    else (false, p)

unfoldable pub acknowledge_irq : ℕ → Pic → Pic
acknowledge_irq irq_num p =
    let q = if leb 8 irq_num then log p (cmd_2 command_acknowledge_irq) else p in
    log q (cmd_1 command_acknowledge_irq)

-- `handle_irq` once it is known whether the IRQ is spurious.
unfoldable pub handle_valid : ℕ → Bool → Pic → Outcome Pic
handle_valid irq_num true p = ok p
handle_valid irq_num false p = do
  slot ← unwrap (get_elem? p.handlers irq_num)
  handler ← unwrap slot
  ok (acknowledge_irq irq_num (log p (called handler)))

unfoldable pub handle_irq : ℕ → ℕ → ℕ → Pic → Outcome Pic
handle_irq isr_1 isr_2 irq_num p =
    let (spurious, q) = is_spurious isr_1 isr_2 irq_num p in handle_valid irq_num spurious q

-- What the CPU runs at a gate: `handle_irq0` to `handle_irq15` call `handle_irq` with their number,
-- and the handlers of exceptions panic.
unfoldable pub on_interrupt : ℕ → ℕ → Gate → Pic → Outcome Pic
on_interrupt isr_1 isr_2 gate p = run_gate (λ n. handle_irq isr_1 isr_2 n p) gate
