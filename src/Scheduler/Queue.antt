-- ===== src/Scheduler/Queue.antt =====
-- The ready list is a first-in first-out queue, and `yield_current` runs the tasks in turn.
use testos.Base.{
  ◌<◌, ◌≡◌, ◌≢◌, refl, sym, ap, ◌∙◌, arith, Option, none, some, List, [], ◌∷◌, ◌++◌, Outcome, ok,
  length, set, get_elem?-eq-get_or, get_or-set_self, get_or-set_ne, get_or-set_same, length-set,
}
use testos.Scheduler.{
  Task, TaskPtr, Kernel, set_prev, set_next, with_list, update, add_after, add_task_to_ready_list,
}
use testos.Scheduler.Spec.{task_at, no_task, IsChain, NotIn, Distinct, IsReady}
use testos.Scheduler.Chain.{
  IsChain-set, length-Distinct, tail_of, find_tail-ok, tail_of-inside, linked, IsChain-linked,
  Distinct-append, IsChain-inside,
}

pub update-ok :
    (tasks : List Task) (p : TaskPtr) (f : Task → Task)
    → p < length tasks
    → update tasks p f ≡ ok (set tasks p (f (task_at tasks p)))
unfolding update
update-ok tasks p f h = rw (get_elem?-eq-get_or tasks p no_task h)

-- A task that can be put on the list: it is not on it, and has no next task.
pub record IsLoose (k : Kernel) (q : List TaskPtr) (t : TaskPtr) : Type 0 where
  pub absent : NotIn t q
  pub inside : t < length k.tasks
  pub alone : (task_at k.tasks t).next_in_list ≡ none

-- The store after `add_after` a list that is not empty.
abbrev added_tasks : List Task → TaskPtr → List TaskPtr → TaskPtr → List Task
added_tasks tasks p q t =
    let tail = tail_of p q in linked (set tasks t (set_prev (task_at tasks t) (some tail))) tail t

add_after-ok :
    (k : Kernel) (p : TaskPtr) (q : List TaskPtr) (t : TaskPtr)
    → IsChain k.tasks (some p) (p ∷ q)
    → Distinct (p ∷ q)
    → t < length k.tasks
    → add_after k t (some p) ≡ ok (with_list k (added_tasks k.tasks p q t) (some p))
unfolding add_after
add_after-ok k p q t c d inside =
    let enough =
      length-Distinct (length k.tasks) (p ∷ q) d (IsChain-inside k.tasks (some p) (p ∷ q) c) in
    let tail = tail_of p q in
    let len = length-set k.tasks t (set_prev (task_at k.tasks t) (some tail)) in
    rw (
      find_tail-ok (length k.tasks) k.tasks (some p) p q c (omega arith),
      update-ok k.tasks t (λ x. set_prev x (some tail)) inside,
      update-ok (set k.tasks t (set_prev (task_at k.tasks t) (some tail))) tail
          (λ x. set_next x (some t)) (rw len (tail_of-inside k.tasks (some p) p q c)),
    )

-- The link to the task before one that is put at the end of the queue: it stays if there is none.
abbrev pub prev_link : List TaskPtr → Option TaskPtr → Option TaskPtr
prev_link [] old = old
prev_link (p ∷ q) old = some (tail_of p q)

-- The result of `add_task_to_ready_list`: the task is last in the queue and is linked to the one before
-- it. All tasks keep their stacks, the other tasks their `prev_in_list`, and tasks off the queue their
-- `next_in_list`.
pub record IsAdded (k : Kernel) (q : List TaskPtr) (t : TaskPtr) (r : Outcome Kernel) : Type 0 where
  pub after : Kernel
  pub returns : r ≡ ok after
  pub ready : IsReady after (q ++ (t ∷ []))
  pub same_length : length after.tasks ≡ length k.tasks
  pub same_current : after.current_task ≡ k.current_task
  pub same_idle : after.idle_task ≡ k.idle_task
  pub same_rsp : (x : TaskPtr) → (task_at after.tasks x).rsp ≡ (task_at k.tasks x).rsp
  pub same_frames :
      (x : TaskPtr) → (task_at after.tasks x).stack_frames ≡ (task_at k.tasks x).stack_frames
  pub same_prev :
      (x : TaskPtr)
      → x ≢ t
      → (task_at after.tasks x).prev_in_list ≡ (task_at k.tasks x).prev_in_list
  pub linked_prev :
      (task_at after.tasks t).prev_in_list ≡ prev_link q (task_at k.tasks t).prev_in_list
  pub same_next :
      (x : TaskPtr)
      → NotIn x q
      → (task_at after.tasks x).next_in_list ≡ (task_at k.tasks x).next_in_list

tail_of-NotIn : (x p : TaskPtr) (q : List TaskPtr) → NotIn x (p ∷ q) → tail_of p q ≢ x
tail_of-NotIn x p [] h = h.0
tail_of-NotIn x p (r ∷ q) h = tail_of-NotIn x r q h.1

module _ (tasks : List Task) (p : TaskPtr) (q : List TaskPtr) (t : TaskPtr) where
  abbrev marked_tasks : List Task
  marked_tasks = set tasks t (set_prev (task_at tasks t) (some (tail_of p q)))

  -- What neither link is a part of stays.
  added_tasks-same {ℓ} :
      {B : Type ℓ} (f : Task → B)
      → ((a : Task) (o : Option TaskPtr) → f (set_prev a o) ≡ f a)
      → ((a : Task) (o : Option TaskPtr) → f (set_next a o) ≡ f a)
      → (x : TaskPtr) → f (task_at (added_tasks tasks p q t) x) ≡ f (task_at tasks x)
  added_tasks-same f prev next x =
      get_or-set_same f marked_tasks (tail_of p q) x _ no_task (next _ (some t))
      ∙ get_or-set_same f tasks t x _ no_task (prev _ (some (tail_of p q)))

  added_tasks-marked :
      (x : TaskPtr)
      → (task_at (added_tasks tasks p q t) x).prev_in_list ≡ (task_at marked_tasks x).prev_in_list
  added_tasks-marked x =
      get_or-set_same (λ a. a.prev_in_list) marked_tasks (tail_of p q) x _ no_task refl

add_to-IsAdded :
    (k : Kernel) (q : List TaskPtr) (t : TaskPtr) (head : Option TaskPtr)
    → k.scheduler ≡ some head
    → IsChain k.tasks head q
    → Distinct q
    → IsLoose k q t
    → IsAdded k q t (add_task_to_ready_list k t)
unfolding add_task_to_ready_list add_after
add_to-IsAdded k [] t head e c d loose = record {
  after = with_list k k.tasks (some t);
  returns = rw (e, c);
  ready = record {
    head = some t;
    initialized = refl;
    chain = (refl, loose.inside, loose.alone);
    distinct = (tt, tt);
  };
  same_length = refl;
  same_current = refl;
  same_idle = refl;
  same_rsp = λ x. refl;
  same_frames = λ x. refl;
  same_prev = λ x ne. refl;
  linked_prev = refl;
  same_next = λ x absent. refl;
}
add_to-IsAdded k (p ∷ q) t head e c d loose =
    let tail = tail_of p q in
    let marked = set k.tasks t (set_prev (task_at k.tasks t) (some tail)) in
    let len = length-set k.tasks t (set_prev (task_at k.tasks t) (some tail)) in
    let chain =
      IsChain-set k.tasks (p ∷ q) head t (set_prev (task_at k.tasks t) (some tail)) loose.absent
        c in
    let at_t =
      get_or-set_self k.tasks t (set_prev (task_at k.tasks t) (some tail)) no_task loose.inside in
    record {
      after = with_list k (added_tasks k.tasks p q t) (some p);
      returns = rw (e, c.0) (add_after-ok k p q t (rw c.0 at c) d loose.inside);
      ready = record {
        head = some p;
        initialized = refl;
        chain = rw c.0 at (
            IsChain-linked marked head p q t chain d loose.absent (rw len loose.inside)
              (rw at_t loose.alone));
        distinct = Distinct-append t (p ∷ q) d loose.absent;
      };
      same_length = length-set marked tail (set_next (task_at marked tail) (some t)) ∙ len;
      same_current = refl;
      same_idle = refl;
      same_rsp = added_tasks-same k.tasks p q t (λ a. a.rsp) (λ a o. refl) (λ a o. refl);
      same_frames =
          added_tasks-same k.tasks p q t (λ a. a.stack_frames) (λ a o. refl) (λ a o. refl);
      same_prev = λ x ne.
          added_tasks-marked k.tasks p q t x
          ∙ ap (λ a. a.prev_in_list)
              (get_or-set_ne k.tasks t x (set_prev (task_at k.tasks t) (some tail)) no_task
                (λ e. ne (sym e)));
      linked_prev = added_tasks-marked k.tasks p q t t ∙ ap (λ a. a.prev_in_list) at_t;
      same_next = λ x absent.
          ap (λ a. a.next_in_list)
            (get_or-set_ne marked tail x (set_next (task_at marked tail) (some t)) no_task
              (tail_of-NotIn x p q absent))
          ∙ get_or-set_same (λ a. a.next_in_list) k.tasks t x
              (set_prev (task_at k.tasks t) (some tail)) no_task refl;
    }

-- A task that is not on the ready list is put at its end, within the fuel: the list holds the tasks that
-- it had and then this one, which is linked to the one before it if there is one. The current and the
-- idle task, the stacks of all tasks, the prev_in_list of the others and the next_in_list of those that
-- were not on the list stay.
pub add_task_to_ready_list-IsAdded :
    (k : Kernel) (q : List TaskPtr) (t : TaskPtr)
    → IsReady k q
    → IsLoose k q t
    → IsAdded k q t (add_task_to_ready_list k t)
add_task_to_ready_list-IsAdded k q t r loose =
    add_to-IsAdded k q t r.head r.initialized r.chain r.distinct loose
