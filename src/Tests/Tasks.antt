-- ===== src/Tests/Tasks.antt =====
-- The theorem on the creation of tasks at a concrete input.
use testos.Base.{refl, arith, none, some, [], ◌∷◌}
use testos.BitmapAllocator.{Bitmap}
use testos.BitmapAllocator.Spec.{IsBytes}
use testos.Scheduler.{Kernel}
use testos.Scheduler.Create.{Code, System, system}
use testos.Scheduler.Stack.{IsCreated, create_task-IsCreated}

abbrev code : Code
code = record {
  task_size = 48;
  task_init_trampoline = 0xffffffff80101000;
  kernel_main_init_fn = 0xffffffff80102000;
  idle_task_fn = 0xffffffff80103000;
}

abbrev frames : Bitmap
frames = 0b00001101 ∷ 0b11110000 ∷ []

frames-IsBytes : IsBytes frames
frames-IsBytes = (omega arith, (omega arith, tt))

abbrev no_tasks : Kernel
no_tasks = record { tasks = []; current_task = none; idle_task = none; scheduler = none }

abbrev at_start : System
at_start = system no_tasks (some frames) []

create_task-IsCreated_example : IsCreated code 0xffffffff80104000 7 at_start frames
create_task-IsCreated_example =
    create_task-IsCreated code 0xffffffff80104000 7 at_start frames (omega arith) (omega arith) refl
      (omega arith) frames-IsBytes
