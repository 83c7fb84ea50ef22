-- ===== src/Scheduler/Create.antt =====
-- The creation of tasks in src/sched.rs. What is written to a stack is a list of writes, the last one
-- first. The size of a `Task`, which the compiler chooses, and the addresses of the code are
-- parameters.
use testos.Base.{
  ℕ, ◌+◌, ◌*◌, ◌^◌, not, Option, none, some, List, [], ◌∷◌, ◌++◌, ◌==◌, if◌then◌else◌, Outcome, ok,
  ◌>>=◌, ◌>>◌, assert, unwrap, is_none, sub, get_elem?, length,
}
use testos.Addr.{add_length}
use testos.Frame.{page_size}
use testos.FrameRange.{FrameRange}
use testos.Mm.{phys_to_virt}
use testos.Mm.Frames.{FrameAllocator, allocate_owned_frames}
use testos.Scheduler.{
  Task, TaskPtr, Kernel, set_rsp, update, with_current, with_list, add_task_to_ready_list,
}

abbrev pub stack_frames_order : ℕ
stack_frames_order = 2

-- `2 << STACK_FRAMES_ORDER`.
abbrev pub num_stack_frames : ℕ
num_stack_frames = 2 * 2 ^ stack_frames_order

abbrev pub stack_len : ℕ
stack_len = num_stack_frames * page_size

-- What is pushed on a stack: a task, or a word.
pub data Value : Type 0 where
  task_value : Task → Value
  word : ℕ → Value

pub record Write : Type 0 where
  pub address : ℕ
  pub size : ℕ
  pub value : Value

abbrev pub write : ℕ → ℕ → Value → Write
write a n v = record { address = a; size = n; value = v }

pub record StackWriter : Type 0 where
  pub ptr : ℕ
  pub writes : List Write

abbrev pub stack_writer : ℕ → List Write → StackWriter
stack_writer p ws = record { ptr = p; writes = ws }

unfoldable pub new : ℕ → StackWriter
new p = stack_writer p []

-- A pointer never goes below 0.
unfoldable pub push : ℕ → Value → StackWriter → Outcome StackWriter
push size v w = do
  assert (not (size == 0))
  val_ptr ← sub w.ptr size
  ok (stack_writer val_ptr (write val_ptr size v ∷ w.writes))

-- The addresses of the code of `task_init_trampoline`, `kernel_main_init_fn` and `idle_task_fn`.
pub record Code : Type 0 where
  pub task_size : ℕ
  pub task_init_trampoline : ℕ
  pub kernel_main_init_fn : ℕ
  pub idle_task_fn : ℕ

pub record System : Type 0 where
  pub kernel : Kernel
  pub frame_allocator : FrameAllocator
  pub writes : List Write

abbrev pub system : Kernel → FrameAllocator → List Write → System
system k fa ws = record { kernel = k; frame_allocator = fa; writes = ws }

abbrev pub new_task : FrameRange → Task
new_task frames = record {
  stack_frames = frames;
  rsp = none;
  prev_in_list = none;
  next_in_list = none;
}

-- `NonZeroUsize::new`.
abbrev pub non_zero : ℕ → Option ℕ
non_zero n = if n == 0 then none else some n

abbrev pub with_task : Kernel → Task → Kernel
with_task k t = record k { tasks = k.tasks ++ (t ∷ []) }

-- The five values that a stack begins with.
unfoldable pub prepare_stack : Code → ℕ → ℕ → Task → ℕ → Outcome StackWriter
prepare_stack code task_fn context task stack_top = do
  w1 ← push code.task_size (task_value task) (new stack_top)
  w2 ← push 8 (word 0) w1
  w3 ← push 8 (word task_fn) w2
  w4 ← push 8 (word context) w3
  push 8 (word code.task_init_trampoline) w4

unfoldable pub create_task : Code → ℕ → ℕ → System → Outcome (TaskPtr × System)
create_task code task_fn context s = do
  (o, fa) ← allocate_owned_frames 1 s.frame_allocator
  stack_frames ← unwrap o
  stack_bottom ← phys_to_virt stack_frames.frames.first.start
  stack_top ← add_length stack_bottom stack_len
  w ← prepare_stack code task_fn context (new_task stack_frames.frames) stack_top
  let task = set_rsp (new_task stack_frames.frames) (non_zero w.ptr)
  ok (length s.kernel.tasks, system (with_task s.kernel task) fa (w.writes ++ s.writes))

unfoldable pub spawn_kthread : Code → ℕ → ℕ → System → Outcome System
spawn_kthread code task_fn context s = do
  (task, s') ← create_task code task_fn context s
  k ← add_task_to_ready_list s'.kernel task
  ok (system k s'.frame_allocator s'.writes)

-- The stack pointer with which the main task starts, up to the jump to its stack.
unfoldable pub init_kernel_main_thread : Code → ℕ → System → Outcome (ℕ × System)
init_kernel_main_thread code kernel_main s = do
  (main_task, s') ← create_task code code.kernel_main_init_fn kernel_main s
  assert (is_none s'.kernel.current_task)
  let k = with_list (with_current s'.kernel (some main_task)) s'.kernel.tasks none
  t ← unwrap (get_elem? k.tasks main_task)
  stack_top ← unwrap t.rsp
  tasks ← update k.tasks main_task (λ x. set_rsp x none)
  ok (stack_top, system (with_list k tasks none) s'.frame_allocator s'.writes)

-- Up to the call of `kernel_main`.
unfoldable pub kernel_main_init_fn : Code → System → Outcome System
kernel_main_init_fn code s = do
  (idle_task, s') ← create_task code code.idle_task_fn 0 s
  ok (system (record s'.kernel { idle_task = some idle_task }) s'.frame_allocator s'.writes)

-- The word that was last written at an address.
unfoldable pub read_word : List Write → ℕ → Option ℕ
read_word [] a = none
read_word (w ∷ ws) a =
    let older = read_word ws a in
    if w.address == a then elim w.value [ word n ↦ some n | task_value t ↦ none ] else older

-- `task_init_trampoline`: it pops the context into the register of the first argument and returns to
-- the function on the stack. The result is the function, the argument and the stack pointer.
unfoldable pub run_trampoline : List Write → ℕ → Option (ℕ × ℕ × ℕ)
run_trampoline stack rsp = elim (read_word stack rsp) [
  | none ↦ none
  | some rdi ↦ elim (read_word stack (rsp + 8)) [
    | none ↦ none
    | some target ↦ some (target, rdi, rsp + 16)
  ]
]
