-- ===== src/Scheduler/Chain.antt =====
-- Chains of tasks in the store: what a write changes, where they end, and how long they are.
use testos.Base.{
  ℕ, zero, suc, ◌≤◌, ◌<◌, ◌≡◌, ◌≢◌, refl, sym, ap, ◌∙◌, arith, Option, none, some, List, [], ◌∷◌,
  ◌++◌, ◌==◌, if◌then◌else◌, Outcome, ok, length, set, All, Bool-cases, ==_iff, inl, inr,
  get_elem?-eq-get_or, get_or-set_self, get_or-set_ne, length-set,
}
use testos.Scheduler.{Task, TaskPtr, find_tail, set_next}
use testos.Scheduler.Spec.{task_at, no_task, IsChain, NotIn, Distinct}

-- A write to a task that is not in the chain leaves it.
-- A chain depends on the links between the tasks only.
pub IsChain-same :
    (tasks tasks' : List Task) (o : Option TaskPtr) (q : List TaskPtr)
    → length tasks' ≡ length tasks
    → ((x : TaskPtr) → (task_at tasks' x).next_in_list ≡ (task_at tasks x).next_in_list)
    → IsChain tasks o q
    → IsChain tasks' o q
IsChain-same tasks tasks' o [] len same c = c
IsChain-same tasks tasks' o (p ∷ q) len same (e, inside, c) =
    (e, rw len inside, IsChain-same tasks tasks' _ q len same (rw (same p) c))

pub IsChain-set :
    (tasks : List Task) (q : List TaskPtr) (o : Option TaskPtr) (p : TaskPtr) (t : Task)
    → NotIn p q
    → IsChain tasks o q
    → IsChain (set tasks p t) o q
IsChain-set tasks [] o p t out c = c
IsChain-set tasks (x ∷ q) o p t out (e, inside, c) = (
  e,
  rw (length-set tasks p t) inside,
  rw (get_or-set_ne tasks p x t no_task (λ same. out.0 (sym same)))
      (IsChain-set tasks q _ p t out.1 c),
)

-- Numbers below `n`, none twice: there are at most `n`.
remove : ℕ → List ℕ → List ℕ
remove n [] = []
remove n (x ∷ xs) = if x == n then remove n xs else x ∷ remove n xs

NotIn-remove : (n x : ℕ) (xs : List ℕ) → NotIn x xs → NotIn x (remove n xs)
unfolding remove
NotIn-remove n x [] h = tt
NotIn-remove n x (y ∷ ys) (h, hs) = elim (Bool-cases (y == n)) [
  | inl same ↦ rw same (NotIn-remove n x ys hs)
  | inr other ↦ rw other (h, NotIn-remove n x ys hs)
]

remove_absent : (n : ℕ) (xs : List ℕ) → NotIn n xs → remove n xs ≡ xs
unfolding remove
remove_absent n [] h = refl
remove_absent n (x ∷ xs) (h, hs) = elim (Bool-cases (x == n)) [
  | inl same ↦ absurd (h ((==_iff x n).0 same))
  | inr other ↦ rw other (ap (λ t. x ∷ t) (remove_absent n xs hs))
]

Distinct-remove : (n : ℕ) (xs : List ℕ) → Distinct xs → Distinct (remove n xs)
unfolding remove
Distinct-remove n [] d = tt
Distinct-remove n (x ∷ xs) (h, d) = elim (Bool-cases (x == n)) [
  | inl same ↦ rw same (Distinct-remove n xs d)
  | inr other ↦ rw other (NotIn-remove n x xs h, Distinct-remove n xs d)
]

length-remove : (n : ℕ) (xs : List ℕ) → Distinct xs → length xs ≤ suc (length (remove n xs))
unfolding remove
length-remove n [] d = omega arith
length-remove n (x ∷ xs) (h, d) = elim (Bool-cases (x == n)) [
  | inl same ↦
      let e : x ≡ n = (==_iff x n).0 same in rw (same, remove_absent n xs (rw e at h)) (omega arith)
  | inr other ↦ rw other (omega (arith, length-remove n xs d))
]

All-remove : (n : ℕ) (xs : List ℕ) → All (λ x. x < suc n) xs → All (λ x. x < n) (remove n xs)
unfolding remove
All-remove n [] a = tt
All-remove n (x ∷ xs) (h, a) = elim (Bool-cases (x == n)) [
  | inl same ↦ rw same (All-remove n xs a)
  | inr other ↦ rw other (ground arith, All-remove n xs a)
]

pub length-Distinct : (n : ℕ) (xs : List ℕ) → Distinct xs → All (λ x. x < n) xs → length xs ≤ n
length-Distinct zero [] d a = omega arith
length-Distinct zero (x ∷ xs) d a = absurd (omega arith)
length-Distinct (suc n) xs d a = omega (
  arith,
  length-remove n xs d,
  length-Distinct n (remove n xs) (Distinct-remove n xs d) (All-remove n xs a),
)

-- The last of the tasks `p ∷ q`.
abbrev pub tail_of : TaskPtr → List TaskPtr → TaskPtr
tail_of p [] = p
tail_of p (x ∷ q) = tail_of x q

pub tail_of_ne : (t p : TaskPtr) (q : List TaskPtr) → NotIn t (p ∷ q) → tail_of p q ≢ t
tail_of_ne t p [] (h, _) = h
tail_of_ne t p (x ∷ q) (_, hs) = tail_of_ne t x q hs

abbrev go_on : ℕ → List Task → TaskPtr → Option TaskPtr → Outcome TaskPtr
go_on fuel tasks p none = ok p
go_on fuel tasks p (some next) = find_tail fuel tasks next

find_step :
    (fuel : ℕ) (tasks : List Task) (p : TaskPtr)
    → p < length tasks
    → find_tail (suc fuel) tasks p ≡ go_on fuel tasks p (task_at tasks p).next_in_list
unfolding find_tail
find_step fuel tasks p inside =
    rw (get_elem?-eq-get_or tasks p no_task inside) (by_next (task_at tasks p).next_in_list)
  where
    by_next :
        (o : Option TaskPtr)
        → elim o [ none ↦ ok p | some next ↦ find_tail fuel tasks next ] ≡ go_on fuel tasks p o
    by_next none = refl
    by_next (some next) = refl

pub find_tail-ok :
    (fuel : ℕ) (tasks : List Task) (o : Option TaskPtr) (p : TaskPtr) (q : List TaskPtr)
    → IsChain tasks o (p ∷ q)
    → length q < fuel
    → find_tail fuel tasks p ≡ ok (tail_of p q)
unfolding find_tail
find_tail-ok zero tasks o p q c h = absurd (omega arith)
find_tail-ok (suc fuel) tasks o p [] (e, inside, last) h =
    find_step fuel tasks p inside ∙ ap (go_on fuel tasks p) last
find_tail-ok (suc fuel) tasks o p (x ∷ q) (e, inside, c) h =
    find_step fuel tasks p inside
    ∙ ap (go_on fuel tasks p) c.0
    ∙ find_tail-ok fuel tasks (task_at tasks p).next_in_list x q c (omega arith)

pub tail_of-inside :
    (tasks : List Task) (o : Option TaskPtr) (p : TaskPtr) (q : List TaskPtr)
    → IsChain tasks o (p ∷ q)
    → tail_of p q < length tasks
tail_of-inside tasks o p [] c = c.1
tail_of-inside tasks o p (x ∷ q) c = tail_of-inside tasks _ x q c.2

-- Linking a task behind the last one.
abbrev pub linked : List Task → TaskPtr → TaskPtr → List Task
linked tasks tail t = set tasks tail (set_next (task_at tasks tail) (some t))

pub IsChain-linked :
    (tasks : List Task) (o : Option TaskPtr) (p : TaskPtr) (q : List TaskPtr) (t : TaskPtr)
    → IsChain tasks o (p ∷ q)
    → Distinct (p ∷ q)
    → NotIn t (p ∷ q)
    → t < length tasks
    → (task_at tasks t).next_in_list ≡ none
    → IsChain (linked tasks (tail_of p q) t) o (p ∷ (q ++ (t ∷ [])))
IsChain-linked tasks o p [] t c d out inside alone =
    let len = length-set tasks p (set_next (task_at tasks p) (some t)) in
    (
      c.0,
      omega (arith, len, c.1),
      rw (get_or-set_self tasks p (set_next (task_at tasks p) (some t)) no_task c.1) (
        refl,
        omega (arith, len),
        rw (get_or-set_ne tasks p t (set_next (task_at tasks p) (some t)) no_task out.0) alone,
      ),
    )
IsChain-linked tasks o p (x ∷ q) t c d out inside alone =
    let tail = tail_of x q in
    let len = length-set tasks tail (set_next (task_at tasks tail) (some t)) in
    (
      c.0,
      omega (arith, len, c.1),
      rw
          (get_or-set_ne tasks tail p (set_next (task_at tasks tail) (some t)) no_task
            (tail_of_ne p x q d.0))
          (IsChain-linked tasks _ x q t c.2 d.1 out.1 inside alone),
    )

pub NotIn-append : (x t : TaskPtr) (q : List TaskPtr) → NotIn x q → t ≢ x → NotIn x (q ++ (t ∷ []))
NotIn-append x t [] h ne = (ne, tt)
NotIn-append x t (y ∷ q) (h, hs) ne = (h, NotIn-append x t q hs ne)

pub Distinct-append :
    (t : TaskPtr) (q : List TaskPtr) → Distinct q → NotIn t q → Distinct (q ++ (t ∷ []))
Distinct-append t [] d out = (tt, tt)
Distinct-append t (x ∷ q) (h, d) (ne, out) =
    (NotIn-append x t q h (λ e. ne (sym e)), Distinct-append t q d out)

pub IsChain-inside :
    (tasks : List Task) (o : Option TaskPtr) (q : List TaskPtr)
    → IsChain tasks o q
    → All (λ x. x < length tasks) q
IsChain-inside tasks o [] c = tt
IsChain-inside tasks o (p ∷ q) c = (c.1, IsChain-inside tasks _ q c.2)
