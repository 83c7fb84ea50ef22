-- ===== src/Scheduler/Spec.antt =====
-- The ready list as a queue of tasks.
use testos.Base.{◌<◌, ◌≡◌, ◌≢◌, Option, none, some, List, [], ◌∷◌, All, length, get_or}
use testos.Frame.{frame}
use testos.FrameRange.{range}
use testos.Scheduler.{Task, TaskPtr, Kernel}

-- What is read of a task outside the store.
abbrev pub no_task : Task
no_task = record {
  stack_frames = range (frame 0) 1;
  rsp = none;
  prev_in_list = none;
  next_in_list = none;
}

abbrev pub task_at : List Task → TaskPtr → Task
task_at tasks p = get_or tasks p no_task

-- The tasks `q` are linked in this order by `next_in_list`, from `o` on to the end.
abbrev pub IsChain : List Task → Option TaskPtr → List TaskPtr → Type 0
IsChain tasks o [] = o ≡ none
IsChain tasks o (p ∷ q) =
    (o ≡ some p) × (p < length tasks) × IsChain tasks (task_at tasks p).next_in_list q

abbrev pub NotIn : TaskPtr → List TaskPtr → Type 0
NotIn p q = All (λ x. x ≢ p) q

-- No task twice.
abbrev pub Distinct : List TaskPtr → Type 0
Distinct [] = Unit {0}
Distinct (p ∷ q) = NotIn p q × Distinct q

-- The ready list holds the tasks `q`, in order.
pub record IsReady (k : Kernel) (q : List TaskPtr) : Type 0 where
  pub head : Option TaskPtr
  pub initialized : k.scheduler ≡ some head
  pub chain : IsChain k.tasks head q
  pub distinct : Distinct q
