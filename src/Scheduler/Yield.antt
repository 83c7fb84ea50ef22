-- ===== src/Scheduler/Yield.antt =====
-- `yield_current` of src/sched.rs as a whole, with the switch of stacks: the tasks run in turn, and each
-- of them goes on where it stopped.
use testos.Base.{
  ℕ, ◌-◌, ◌≤◌, ◌≡◌, ◌≢◌, Option, none, some, List, [], ◌∷◌, Outcome, ok, ◌>>=◌, set, All, unwrap,
  Bool, true, false,
}
use testos.Scheduler.{Task, TaskPtr, Kernel, set_rsp, take_rsp, switch_to, yield_current}
use testos.Scheduler.Spec.{task_at}
use testos.Scheduler.Turns.{IsRunning, turn}

-- The stack pointer that a task has saved.
abbrev pub saved_at : Kernel → TaskPtr → Option ℕ
saved_at k x = (task_at k.tasks x).rsp

-- The tasks have saved their stack pointers.
abbrev pub HaveStacks : Kernel → List TaskPtr → Type 0
HaveStacks k q = All (λ x. (r : ℕ) × (saved_at k x ≡ some r)) q

-- What a turn does to the stacks: the first task that waits goes on with the pointer that it had saved,
-- and the one that ran saves its own, below its eight registers. If none waits, nothing happens.
abbrev pub Switches : Kernel → Kernel → TaskPtr → ℕ → ℕ → List TaskPtr → Type 0
Switches k after t rsp loaded [] = loaded ≡ rsp
Switches k after t rsp loaded (h ∷ q) =
    (saved_at k h ≡ some loaded) × (saved_at after t ≡ some (rsp - 64))

pub record IsTurn (k : Kernel) (t : TaskPtr) (q : List TaskPtr) (rsp : ℕ) (r : Outcome (ℕ × Kernel))
    : Type 0 where
  pub after : Kernel
  pub loaded : ℕ
  pub returns : r ≡ ok (loaded, after)
  pub running : IsRunning after (turn t q).0 (turn t q).1
  pub stacks : HaveStacks after (turn t q).1
  pub switches : Switches k after t rsp loaded q

-- The tasks after the stacks are switched.
abbrev switched : List Task → TaskPtr → TaskPtr → ℕ → List Task
switched tasks next prev saved =
    let taken = set tasks next (set_rsp (task_at tasks next) none) in
    set taken prev (set_rsp (task_at taken prev) (some saved))

-- The rest of `yield_current`, by whether the next task is the one that runs.
abbrev choice : ℕ → ℕ → TaskPtr → TaskPtr → Kernel → Bool → Outcome (ℕ × Kernel)
choice rax rsp next prev chosen true = ok (rsp, chosen)
choice rax rsp next prev chosen false =
    take_rsp chosen next >>= λ (next_rsp, taken). switch_to rax rsp taken next_rsp prev

-- Turns in a row, each with the registers at its switch; the tasks that run after each of them.
unfoldable pub turns : List (ℕ × ℕ) → Kernel → Outcome (List TaskPtr × Kernel)
turns [] k = ok ([], k)
turns ((rax, rsp) ∷ regs) k = do
  (_, k') ← yield_current rax rsp k
  next ← unwrap k'.current_task
  (rest, last) ← turns regs k'
  ok (next ∷ rest, last)

-- The result of turns that run the tasks `run` and end with `t` running and `q` waiting.
pub record AreTurns (run : List TaskPtr) (t : TaskPtr) (q : List TaskPtr)
    (r : Outcome (List TaskPtr × Kernel)) : Type 0 where
  pub after : Kernel
  pub returns : r ≡ ok (run, after)
  pub running : IsRunning after t q
  pub stacks : HaveStacks after q

-- Registers with which the stacks can be switched.
abbrev pub CanSwitch : ℕ × ℕ → Type 0
CanSwitch (rax, rsp) = (rax ≢ 0) × (64 ≤ rsp)
