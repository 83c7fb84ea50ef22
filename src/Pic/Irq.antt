-- ===== src/Pic/Irq.antt =====
-- What an IRQ does: the handler that is called, and the commands that are sent.
use testos.Base.{
  append_assoc, append-nil, ℕ, ◌+◌, ◌≡◌, refl, Bool, true, false, not, Option, none, some, List, [],
  ◌∷◌, ◌++◌, leb, ◌==◌, if◌then◌else◌, Outcome, ok, ◌>>=◌, unwrap, get_elem?, bit_and,
}
use testos.Pic.{
  Pic, pic, Event, cmd_1, cmd_2, called, log, IrqHandlerFunc, is_spurious, acknowledge_irq,
  handle_valid, handle_irq,
}

-- The commands that end IRQ `n`: to the second controller as well if the IRQ is one of its.
abbrev pub acknowledgement : ℕ → List Event
acknowledgement n = if leb 8 n then cmd_2 0x20 ∷ cmd_1 0x20 ∷ [] else cmd_1 0x20 ∷ []

-- What is sent to find out whether IRQ `n` is spurious.
abbrev pub question : ℕ → List Event
question n =
    if n == 7 then cmd_1 0x0b ∷ [] else if n == 15 then cmd_2 0x0b ∷ cmd_1 0x20 ∷ [] else []

-- Whether the code takes IRQ `n` for spurious.
abbrev pub taken_for_spurious : ℕ → ℕ → ℕ → Bool
taken_for_spurious isr_1 isr_2 n =
    if n == 7
    then not (bit_and isr_1 128 == 0)
    else if n == 15
    then not (bit_and isr_2 128 == 0)
    else false

-- The state with more events.
abbrev pub with_events : Pic → List Event → Pic
with_events p es = pic p.handlers p.mask_1 p.mask_2 (p.events ++ es)

is_spurious-eq :
    (isr_1 isr_2 n : ℕ) (p : Pic)
    → is_spurious isr_1 isr_2 n p ≡ (taken_for_spurious isr_1 isr_2 n, with_events p (question n))
unfolding is_spurious
is_spurious-eq isr_1 isr_2 n p =
    by_number (n == 7) (n == 15) (not (bit_and isr_1 128 == 0)) (not (bit_and isr_2 128 == 0))
  where
    by_number :
        (seven fifteen first second : Bool)
        → ◌≡◌ {A = Bool × Pic}
            (if seven
              then (first, log p (cmd_1 0x0b))
              else if fifteen
              then (second, log (log p (cmd_2 0x0b)) (cmd_1 0x20))
              else (false, p))
            (
              (if seven then first else if fifteen then second else false),
              with_events p (
                  if seven
                  then cmd_1 0x0b ∷ []
                  else if fifteen
                  then cmd_2 0x0b ∷ cmd_1 0x20 ∷ []
                  else []),
            )
    by_number true fifteen first second = refl
    by_number false true first second =
        rw (append_assoc p.events (cmd_2 0x0b ∷ []) (cmd_1 0x20 ∷ []))
    by_number false false first second = rw (append-nil p.events)

acknowledge_irq-eq : (n : ℕ) (p : Pic) → acknowledge_irq n p ≡ with_events p (acknowledgement n)
unfolding acknowledge_irq
acknowledge_irq-eq n p = by_controller (leb 8 n)
  where
    by_controller :
        (second : Bool)
        → log (if second then log p (cmd_2 0x20) else p) (cmd_1 0x20)
          ≡ with_events p (if second then cmd_2 0x20 ∷ cmd_1 0x20 ∷ [] else cmd_1 0x20 ∷ [])
    by_controller true = rw (append_assoc p.events (cmd_2 0x20 ∷ []) (cmd_1 0x20 ∷ []))
    by_controller false = refl

-- What `handle_irq` should do, given what the code takes for spurious.
abbrev pub handled : Bool → ℕ → Pic → Outcome Pic
handled true n p = ok (with_events p (question n))
handled false n p = do
  slot ← unwrap (get_elem? p.handlers n)
  handler ← unwrap slot
  ok (with_events p (question n ++ (called handler ∷ acknowledgement n)))

handle_slot :
    (n : ℕ) (p : Pic) (o : Option (Option IrqHandlerFunc))
    → (unwrap o >>= λ slot. unwrap slot >>= λ handler.
        ok (acknowledge_irq n (log (with_events p (question n)) (called handler))))
      ≡ (unwrap o >>= λ slot. unwrap slot >>= λ handler.
          ok (with_events p (question n ++ (called handler ∷ acknowledgement n))))
handle_slot n p none = refl
handle_slot n p (some none) = refl
handle_slot n p (some (some h)) = rw (
  acknowledge_irq-eq n (log (with_events p (question n)) (called h)),
  append_assoc (p.events ++ question n) (called h ∷ []) (acknowledgement n),
  append_assoc p.events (question n) (called h ∷ acknowledgement n),
)

-- `handle_irq` changes no mask and no handler. An IRQ that it takes for spurious, which is 7 or 15
-- with bit 7 set in the byte that is read, has no effect but the question whether it is, and for
-- 15 one acknowledgement of the first controller. On any other the handler is called once, and
-- then the IRQ is acknowledged, to both controllers from 8 on; with no handler the code panics.
pub handle_irq-eq-handled :
    (isr_1 isr_2 n : ℕ) (p : Pic)
    → handle_irq isr_1 isr_2 n p ≡ handled (taken_for_spurious isr_1 isr_2 n) n p
unfolding handle_irq handle_valid
handle_irq-eq-handled isr_1 isr_2 n p =
    rw (is_spurious-eq isr_1 isr_2 n p) (by_answer (taken_for_spurious isr_1 isr_2 n))
  where
    by_answer :
        (spurious : Bool)
        → handle_valid n spurious (with_events p (question n)) ≡ handled spurious n p
    by_answer true = refl
    by_answer false = handle_slot n p (get_elem? p.handlers n)

-- The number of acknowledgements that the first controller gets.
abbrev pub acknowledgements : List Event → ℕ
acknowledgements [] = 0
acknowledgements (cmd_1 b ∷ es) = if b == 0x20 then acknowledgements es + 1 else acknowledgements es
acknowledgements (_ ∷ es) = acknowledgements es

-- An IRQ 15 that the code handles acknowledges the first controller twice.
pub handle_irq-twice :
    (isr_1 isr_2 : ℕ) (p : Pic) (h : IrqHandlerFunc)
    → bit_and isr_2 128 ≡ 0
    → get_elem? p.handlers 15 ≡ some (some h)
    → (es : List Event) × (handle_irq isr_1 isr_2 15 p ≡ ok (with_events p es))
      × (acknowledgements es ≡ 2)
handle_irq-twice isr_1 isr_2 p h e slot = (
  question 15 ++ (called h ∷ acknowledgement 15),
  rw (handle_irq-eq-handled isr_1 isr_2 15 p, e, slot),
  refl,
)
