-- ===== src/Tests/Kernel.antt =====
-- The theorems on the scheduler, the interrupts and the VGA writer at concrete inputs.
use testos.Base.{
  ℕ, ◌≤◌, ◌<◌, ◌≡◌, inr, refl, arith, Bool, true, ◌||◌, Option, none, some, List, [], ◌∷◌, ◌++◌, ok,
  panic, ◌>>=◌, replicate, length, length-replicate, get_elem?, leb, ◌==◌,
}
use testos.Frame.{frame}
use testos.FrameRange.{range}
use testos.Scheduler.{
  Task, TaskPtr, Kernel, add_task_to_ready_list, quit_current, yield_current, pop_next_ready_task,
  pop_head, take_rsp, update,
}
use testos.Scheduler.Spec.{IsReady}
use testos.Scheduler.Queue.{IsLoose, IsAdded, add_task_to_ready_list-IsAdded}
use testos.Scheduler.Turns.{IsPopped, pop_next_ready_task-IsPopped, quit_current-panic}
use testos.Idt
use testos.Idt.{Idt, Gate, empty}
use testos.Pic
use testos.Pic.{Pic, pic, handle_irq, install_irq_handler}
use testos.Pic.Irq.{handled, taken_for_spurious, handle_irq-eq-handled}
use testos.Pic.Install.{IsPic, IsInstalled, install_irq_handler-IsInstalled}
use testos.Pic.Table.{expected_events, expected, init-expected}
use testos.Vga
use testos.Vga.{VgaWriter, writer, write_str, scroll}
use testos.Vga.Bounds.{IsWriter, IsSafe, write_str-IsSafe, scroll-IsSafe, new-IsSafe}

abbrev task : Option TaskPtr → Option TaskPtr → Option ℕ → Task
task prev next rsp = record {
  stack_frames = range (frame 8192) 2;
  rsp = rsp;
  prev_in_list = prev;
  next_in_list = next;
}

-- Task 0 runs, and tasks 1 and 2 wait.
abbrev kernel : Kernel
kernel = record {
  tasks =
      task none none none ∷ task none (some 2) (some 4096) ∷ task (some 1) none (some 8192) ∷ [];
  current_task = some 0;
  idle_task = none;
  scheduler = some (some 1);
}

waiting-IsReady : IsReady kernel (1 ∷ 2 ∷ [])
waiting-IsReady = record {
  head = some 1;
  initialized = refl;
  chain = (refl, omega arith, (refl, omega arith, refl));
  distinct = ((omega arith, tt), (tt, tt));
}

first-IsLoose : IsLoose kernel (1 ∷ 2 ∷ []) 0
first-IsLoose = record {
  absent = (omega arith, (omega arith, tt));
  inside = omega arith;
  alone = refl;
}

add_task_to_ready_list-IsAdded_example :
    IsAdded kernel (1 ∷ 2 ∷ []) 0 (add_task_to_ready_list kernel 0)
add_task_to_ready_list-IsAdded_example =
    add_task_to_ready_list-IsAdded kernel (1 ∷ 2 ∷ []) 0 waiting-IsReady first-IsLoose

pop_next_ready_task-IsPopped_example : IsPopped kernel 1 (2 ∷ []) (pop_next_ready_task kernel)
pop_next_ready_task-IsPopped_example =
    pop_next_ready_task-IsPopped kernel 1 (2 ∷ []) waiting-IsReady

-- The registers at the switch from task 0, and at that from task 1.
abbrev registers : List (ℕ × ℕ)
registers = (1, 16384) ∷ (1, 4000) ∷ []

abbrev after_quit : Kernel
after_quit = record {
  tasks = task none none none ∷ task none none none ∷ task (some 1) none (some 8192) ∷ [];
  current_task = none;
  idle_task = none;
  scheduler = some (some 2);
}

quit_run : quit_current kernel ≡ ok (4088, 0, after_quit)
unfolding quit_current pop_next_ready_task pop_head take_rsp update
quit_run = refl

quit_current-panic_example :
    (after_quit.current_task ≡ none)
    × (yield_current 1 4096 after_quit ≡ panic)
    × (quit_current after_quit ≡ panic)
quit_current-panic_example = quit_current-panic kernel after_quit 4088 0 1 4096 quit_run

-- IRQ 15 has handler 3.
abbrev controllers : Pic
controllers =
    pic
      (none
        ∷ none
        ∷ none
        ∷ none
        ∷ none
        ∷ none
        ∷ none
        ∷ none
        ∷ none
        ∷ none
        ∷ none
        ∷ none
        ∷ none
        ∷ none
        ∷ none
        ∷ some 3
        ∷ [])
      255 127 []

controllers-IsPic : IsPic controllers
controllers-IsPic = record { slots = refl; byte_1 = omega arith; byte_2 = omega arith }

handle_irq-eq-handled_example :
    handle_irq 0 0 15 controllers ≡ handled (taken_for_spurious 0 0 15) 15 controllers
handle_irq-eq-handled_example = handle_irq-eq-handled 0 0 15 controllers

install_irq_handler-IsInstalled_example :
    IsInstalled 9 (some 4) controllers (install_irq_handler 9 (some 4) controllers)
install_irq_handler-IsInstalled_example =
    install_irq_handler-IsInstalled 9 (some 4) controllers controllers-IsPic (omega arith)
      (inr refl)

abbrev indexable : ℕ → Bool
indexable n = n == 9 || leb 32 n

can_index : (n : ℕ) → 32 ≤ n → n < 256 → indexable n ≡ true
can_index n h k = ground arith

init-expected_example :
    (idt : Idt) × ((Idt.init indexable empty >>= λ i. Pic.init indexable controllers i)
      ≡ ok (pic controllers.handlers 255 255 ([] ++ expected_events), idt))
    × ((v : ℕ) → v < 256 → get_elem? idt.table v ≡ some (expected v))
init-expected_example = init-expected indexable controllers refl can_index

abbrev screen : List ℕ
screen = replicate 4000 7

screen-length : length {A = ℕ} screen ≡ 4000
screen-length = length-replicate {A = ℕ} 4000 7

-- A writer past the last cell.
abbrev full : VgaWriter
full = writer screen 2000

full-IsWriter : IsWriter full
full-IsWriter = record { size = screen-length; bound = omega arith }

write_str-IsSafe_example : IsSafe (write_str (72 ∷ 10 ∷ 960 ∷ []) full)
write_str-IsSafe_example = write_str-IsSafe (72 ∷ 10 ∷ 960 ∷ []) full full-IsWriter

scroll-IsSafe_example : IsSafe (scroll 3 full)
scroll-IsSafe_example = scroll-IsSafe 3 full full-IsWriter

new-IsSafe_example : IsSafe (Vga.new screen)
new-IsSafe_example = new-IsSafe screen screen-length
