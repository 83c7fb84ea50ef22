-- ===== src/Scheduler.antt =====
-- The scheduler of src/sched.rs. A `TaskPtr` is a place in a store of tasks, and a pointer outside
-- the store, which the unsafe code must not follow, is a panic here. The three statics and the
-- store are one state; interrupts are off while the ready list is used, so that each operation is
-- one step. Registers and stack memory are left out but for the stack pointers that are saved.
pub mod Spec
mod Chain
pub mod Queue
pub mod Turns
pub mod Yield
pub mod Create
pub mod Stack
use testos.Base.{
  ℕ, zero, suc, ◌+◌, ◌-◌, Bool, true, false, Option, none, some, List, [], ◌∷◌, ◌++◌, ◌==◌,
  if◌then◌else◌, Outcome, ok, panic, ◌>>=◌, ◌>>◌, assert, unwrap, is_none, add, sub, get_elem?, set,
  length,
}
use testos.FrameRange.{FrameRange}

abbrev pub TaskPtr : Type 0
TaskPtr = ℕ

pub record Task : Type 0 where
  pub stack_frames : FrameRange
  pub rsp : Option ℕ
  pub prev_in_list : Option TaskPtr
  pub next_in_list : Option TaskPtr

-- `CURRENT_TASK`, `IDLE_TASK`, `SCHEDULER` with its `ready_list_head`, and the tasks.
pub record Kernel : Type 0 where
  pub tasks : List Task
  pub current_task : Option TaskPtr
  pub idle_task : Option TaskPtr
  pub scheduler : Option (Option TaskPtr)

abbrev pub set_prev : Task → Option TaskPtr → Task
set_prev t p = record {
  stack_frames = t.stack_frames;
  rsp = t.rsp;
  prev_in_list = p;
  next_in_list = t.next_in_list;
}

abbrev pub set_next : Task → Option TaskPtr → Task
set_next t n = record {
  stack_frames = t.stack_frames;
  rsp = t.rsp;
  prev_in_list = t.prev_in_list;
  next_in_list = n;
}

abbrev pub set_rsp : Task → Option ℕ → Task
set_rsp t r = record {
  stack_frames = t.stack_frames;
  rsp = r;
  prev_in_list = t.prev_in_list;
  next_in_list = t.next_in_list;
}

-- A write through a task pointer.
unfoldable pub update : List Task → TaskPtr → (Task → Task) → Outcome (List Task)
update tasks p f = do t ← unwrap (get_elem? tasks p); ok (set tasks p (f t))

abbrev pub with_list : Kernel → List Task → Option TaskPtr → Kernel
with_list k tasks head = record {
  tasks = tasks;
  current_task = k.current_task;
  idle_task = k.idle_task;
  scheduler = some head;
}

abbrev pub with_current : Kernel → Option TaskPtr → Kernel
with_current k c = record {
  tasks = k.tasks;
  current_task = c;
  idle_task = k.idle_task;
  scheduler = k.scheduler;
}

abbrev pub with_tasks : Kernel → List Task → Kernel
with_tasks k tasks = record {
  tasks = tasks;
  current_task = k.current_task;
  idle_task = k.idle_task;
  scheduler = k.scheduler;
}

-- `pop_next_ready_task` by the head of the list. The next task keeps its `prev_in_list`.
unfoldable pub pop_head : Kernel → Option TaskPtr → Outcome (TaskPtr × Kernel)
pop_head k none = do idle ← unwrap k.idle_task; ok (idle, k)
pop_head k (some head) = do
  t ← unwrap (get_elem? k.tasks head)
  tasks ← update k.tasks head (λ t. set_prev (set_next t none) none)
  ok (head, with_list k tasks t.next_in_list)

unfoldable pub pop_next_ready_task : Kernel → Outcome (TaskPtr × Kernel)
pop_next_ready_task k = do head ← unwrap k.scheduler; pop_head k head

-- The `while let` loop: the last task of the list from `tail` on. The fuel is the number of tasks,
-- and a walk without fuel has not ended (see Scheduler/Chain.antt).
unfoldable pub find_tail : ℕ → List Task → TaskPtr → Outcome TaskPtr
find_tail zero tasks tail = panic
find_tail (suc fuel) tasks tail = do
  t ← unwrap (get_elem? tasks tail)
  elim t.next_in_list [ none ↦ ok tail | some next ↦ find_tail fuel tasks next ]

-- `add_task_to_ready_list` by the head of the list.
unfoldable pub add_after : Kernel → TaskPtr → Option TaskPtr → Outcome Kernel
add_after k task none = ok (with_list k k.tasks (some task))
add_after k task (some head) = do
  tail ← find_tail (length k.tasks) k.tasks head
  linked ← update k.tasks task (λ t. set_prev t (some tail))
  tasks ← update linked tail (λ t. set_next t (some task))
  ok (with_list k tasks (some head))

unfoldable pub add_task_to_ready_list : Kernel → TaskPtr → Outcome Kernel
add_task_to_ready_list k task = do head ← unwrap k.scheduler; add_after k task head

-- `rsp.take().unwrap()` of a task.
unfoldable pub take_rsp : Kernel → TaskPtr → Outcome (ℕ × Kernel)
take_rsp k p = do
  t ← unwrap (get_elem? k.tasks p)
  rsp ← unwrap t.rsp
  tasks ← update k.tasks p (λ t. set_rsp t none)
  ok (rsp, with_tasks k tasks)

-- `switch_to` from the task `prev`, with the stack pointer that it pushes its registers to: the
-- pointer is saved if the register `rax` is not zero, and the next stack is loaded. Eight
-- registers are pushed.
unfoldable pub switch_to : ℕ → ℕ → Kernel → ℕ → TaskPtr → Outcome (ℕ × Kernel)
switch_to rax rsp k next_rsp prev = do
  saved ← sub rsp 64
  tasks ← (if rax == 0 then ok k.tasks else update k.tasks prev (λ t. set_rsp t (some saved)))
  ok (next_rsp, with_tasks k tasks)

-- What `yield_current` does to the ready list and the current task: the task that runs next, the
-- one that ran before, and the state.
unfoldable pub choose_next : Kernel → Outcome (TaskPtr × TaskPtr × Kernel)
choose_next k = do
  prev ← unwrap k.current_task
  added ← add_task_to_ready_list (with_current k none) prev
  (next, popped) ← pop_next_ready_task added
  ok (next, prev, with_current popped (some next))

-- `yield_current`, with the registers at the switch; the stack pointer after it.
unfoldable pub yield_current : ℕ → ℕ → Kernel → Outcome (ℕ × Kernel)
yield_current rax rsp k = do
  (next, prev, chosen) ← choose_next k
  elim (next == prev) [
    | true ↦ ok (rsp, chosen)
    | false ↦ do (next_rsp, taken) ← take_rsp chosen next; switch_to rax rsp taken next_rsp prev
  ]

-- `quit_current`: the address of `clean_quit_task` is pushed on the stack of the next task. The
-- stack pointer that is loaded, the task that has quit, and the state.
unfoldable pub quit_current : Kernel → Outcome (ℕ × TaskPtr × Kernel)
quit_current k = do
  old ← unwrap k.current_task
  (next, popped) ← pop_next_ready_task (with_current k none)
  (rsp, taken) ← take_rsp popped next
  pushed ← sub rsp 8
  ok (pushed, old, taken)

-- `clean_quit_task` checks the task that has quit, and drops it with its frames.
unfoldable pub clean_quit_task : Kernel → TaskPtr → Outcome FrameRange
clean_quit_task k p = do
  t ← unwrap (get_elem? k.tasks p)
  assert (is_none t.next_in_list)
  assert (is_none t.prev_in_list)
  assert (is_none t.rsp)
  ok t.stack_frames
