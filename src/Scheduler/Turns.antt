-- ===== src/Scheduler/Turns.antt =====
-- What `pop_next_ready_task` gives, which task `yield_current` chooses, and what `quit_current` leaves.
use testos.Base.{
  ℕ, ◌<◌, ◌≡◌, refl, ap, ◌∙◌, arith, Option, none, some, List, [], ◌∷◌, ◌++◌, Outcome, ok, panic,
  length, set, get_elem?-eq-get_or, get_or-set_self, get_or-set_same, length-set,
}
use testos.Scheduler.{
  TaskPtr, Kernel, set_prev, set_next, with_list, with_current, update, pop_head,
  pop_next_ready_task, add_task_to_ready_list, choose_next, quit_current, take_rsp, yield_current,
}
use testos.Scheduler.Spec.{task_at, no_task, IsReady}
use testos.Scheduler.Chain.{IsChain-set}
use testos.Scheduler.Queue.{IsLoose, add_task_to_ready_list-IsAdded, update-ok}

-- The result of a pop from the queue `p ∷ q`: the first task, off the list, and the rest.
pub record IsPopped (k : Kernel) (p : TaskPtr) (q : List TaskPtr) (r : Outcome (TaskPtr × Kernel))
    : Type 0 where
  pub after : Kernel
  pub returns : r ≡ ok (p, after)
  pub ready : IsReady after q
  pub loose : IsLoose after q p
  pub same_current : after.current_task ≡ k.current_task
  pub same_idle : after.idle_task ≡ k.idle_task
  pub same_rsp : (x : TaskPtr) → (task_at after.tasks x).rsp ≡ (task_at k.tasks x).rsp

pop-ok :
    (k : Kernel) (p : TaskPtr)
    → k.scheduler ≡ some (some p)
    → p < length k.tasks
    → pop_next_ready_task k
      ≡ ok (
        p,
        with_list k
            (set k.tasks p (set_prev (set_next (task_at k.tasks p) none) none))
            (task_at k.tasks p).next_in_list,
      )
unfolding pop_next_ready_task pop_head
pop-ok k p e inside = rw (
  e,
  get_elem?-eq-get_or k.tasks p no_task inside,
  update-ok k.tasks p (λ x. set_prev (set_next x none) none) inside,
)

-- With tasks on the ready list, `pop_next_ready_task` takes the first one off, and leaves the
-- others in order.
pub pop_next_ready_task-IsPopped :
    (k : Kernel) (p : TaskPtr) (q : List TaskPtr)
    → IsReady k (p ∷ q)
    → IsPopped k p q (pop_next_ready_task k)
pop_next_ready_task-IsPopped k p q r =
    let bare = set_prev (set_next (task_at k.tasks p) none) none in
    record {
      after = with_list k (set k.tasks p bare) (task_at k.tasks p).next_in_list;
      returns = pop-ok k p (r.initialized ∙ ap some r.chain.0) r.chain.1;
      ready = record {
        head = (task_at k.tasks p).next_in_list;
        initialized = refl;
        chain = IsChain-set k.tasks q _ p bare r.distinct.0 r.chain.2;
        distinct = r.distinct.1;
      };
      loose = record {
        absent = r.distinct.0;
        inside = rw (length-set k.tasks p bare) r.chain.1;
        alone = rw (get_or-set_self k.tasks p bare no_task r.chain.1);
      };
      same_current = refl;
      same_idle = refl;
      same_rsp = λ x. get_or-set_same (λ a. a.rsp) k.tasks p x bare no_task refl;
    }

-- With no task on the ready list it gives the idle task, and changes nothing.
pub pop_idle :
    (k : Kernel) (idle : TaskPtr)
    → IsReady k []
    → k.idle_task ≡ some idle
    → pop_next_ready_task k ≡ ok (idle, k)
unfolding pop_next_ready_task pop_head
pop_idle k idle r e = rw (r.initialized, r.chain, e)

-- A state in which `t` runs and the tasks `q` wait, in order.
pub record IsRunning (k : Kernel) (t : TaskPtr) (q : List TaskPtr) : Type 0 where
  pub current : k.current_task ≡ some t
  pub ready : IsReady k q
  pub loose : IsLoose k q t

-- The task that runs and those that wait after a turn.
abbrev pub turn : TaskPtr → List TaskPtr → TaskPtr × List TaskPtr
turn t [] = (t, [])
turn t (h ∷ q) = (h, q ++ (t ∷ []))

-- The choice of `choose_next`, which switches no stacks yet.
pub record IsChosen (k : Kernel) (t : TaskPtr) (q : List TaskPtr)
    (r : Outcome (TaskPtr × TaskPtr × Kernel)) : Type 0 where
  pub after : Kernel
  pub returns : r ≡ ok ((turn t q).0, t, after)
  pub running : IsRunning after (turn t q).0 (turn t q).1
  pub same_rsp : (x : TaskPtr) → (task_at after.tasks x).rsp ≡ (task_at k.tasks x).rsp

IsReady-with_current :
    (k : Kernel) (q : List TaskPtr) (c : Option TaskPtr)
    → IsReady k q
    → IsReady (with_current k c) q
IsReady-with_current k q c r = record {
  head = r.head;
  initialized = r.initialized;
  chain = r.chain;
  distinct = r.distinct;
}

IsLoose-with_current :
    (k : Kernel) (q : List TaskPtr) (t : TaskPtr) (c : Option TaskPtr)
    → IsLoose k q t
    → IsLoose (with_current k c) q t
IsLoose-with_current k q t c l = record { absent = l.absent; inside = l.inside; alone = l.alone }

-- The turn of a queue by its parts.
turn_parts : (t : TaskPtr) (q : List TaskPtr) → q ++ (t ∷ []) ≡ (turn t q).0 ∷ (turn t q).1
turn_parts t [] = refl
turn_parts t (h ∷ q) = refl

choose_steps :
    (k added popped : Kernel) (t next : TaskPtr)
    → k.current_task ≡ some t
    → add_task_to_ready_list (with_current k none) t ≡ ok added
    → pop_next_ready_task added ≡ ok (next, popped)
    → choose_next k ≡ ok (next, t, with_current popped (some next))
unfolding choose_next
choose_steps k added popped t next e a p = rw (e, a, p)

pub choose_next-IsChosen :
    (k : Kernel) (t : TaskPtr) (q : List TaskPtr) → IsRunning k t q → IsChosen k t q (choose_next k)
choose_next-IsChosen k t q r =
    let added =
      add_task_to_ready_list-IsAdded (with_current k none) q t
        (IsReady-with_current k q none r.ready) (IsLoose-with_current k q t none r.loose) in
    let popped =
      pop_next_ready_task-IsPopped added.after (turn t q).0 (turn t q).1
        (rw (turn_parts t q) at added.ready) in
    record {
      after = with_current popped.after (some (turn t q).0);
      returns =
          choose_steps k added.after popped.after t (turn t q).0 r.current added.returns
            popped.returns;
      running = record {
        current = refl;
        ready = IsReady-with_current popped.after _ _ popped.ready;
        loose = IsLoose-with_current popped.after _ _ _ popped.loose;
      };
      same_rsp = λ x. popped.same_rsp x ∙ added.same_rsp x;
    }

-- After `quit_current` no task is current, as the code never stores the next one: the first
-- `yield_current` or `quit_current` of the task that runs next panics.
pub quit_current-panic :
    (k after : Kernel) (rsp : ℕ) (old : TaskPtr) (rax rsp' : ℕ)
    → quit_current k ≡ ok (rsp, old, after)
    → (after.current_task ≡ none)
      × (yield_current rax rsp' after ≡ panic)
      × (quit_current after ≡ panic)
unfolding quit_current yield_current choose_next pop_next_ready_task pop_head take_rsp update
quit_current-panic k after rsp old rax rsp' e =
    let gone : after.current_task ≡ none = ground (arith, e) in (gone, rw gone, rw gone)
