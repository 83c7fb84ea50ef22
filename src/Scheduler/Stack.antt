-- ===== src/Scheduler/Stack.antt =====
-- The stack of a new task in src/sched.rs.
use testos.Base.{
  ℕ, ◌+◌, ◌-◌, ◌*◌, ◌≤◌, ◌<◌, ◌≡◌, refl, ap, ◌∙◌, arith, Option, none, some, List, [], ◌∷◌, ◌++◌,
  ok, panic, All, length, sub,
}
use testos.Addr.{add_length}
use testos.Frame.{frame}
use testos.FrameRange.{FrameRange, range}
use testos.BitmapAllocator
use testos.BitmapAllocator.{Bitmap}
use testos.BitmapAllocator.Spec.{IsBytes, Grants, granted, refused, NoneFree}
use testos.BitmapAllocator.Small.{allocate_range-Allocates}
use testos.BitmapAllocator.Single.{nth_frame}
use testos.Mm.{max_memory_frames}
use testos.Mm.Translate.{phys_map_start, phys_to_virt-ok}
use testos.Mm.Frames.{owned, allocate_frames, allocate_owned_frames}
use testos.Scheduler.{Task, set_rsp}
use testos.Scheduler.Create.{
  Code, System, system, stack_writer, Write, write, Value, word, task_value, new, push,
  prepare_stack, create_task, new_task, with_task, read_word, run_trampoline, stack_len,
}

-- The five values above `b`.
abbrev pub stack_of : Code → ℕ → ℕ → Task → ℕ → List Write
stack_of code task_fn context t b =
    write b 8 (word code.task_init_trampoline)
    ∷ write (b + 8) 8 (word context)
    ∷ write (b + 16) 8 (word task_fn)
    ∷ write (b + 24) 8 (word 0)
    ∷ write (b + 32) code.task_size (task_value t)
    ∷ []

push-ok :
    (size b : ℕ) (v : Value) (p : ℕ) (ws : List Write)
    → 0 < size
    → b + size ≡ p
    → push size v (stack_writer p ws) ≡ ok (stack_writer b (write b size v ∷ ws))
unfolding push
push-ok size b v p ws pos e = let d : sub p size ≡ ok b = ground arith in ground (arith, d)

prepare_stack-ok :
    (code : Code) (task_fn context : ℕ) (t : Task) (b : ℕ)
    → 0 < code.task_size
    → prepare_stack code task_fn context t (b + 32 + code.task_size)
      ≡ ok (stack_writer b (stack_of code task_fn context t b))
unfolding prepare_stack new
prepare_stack-ok code task_fn context t b pos =
    rw
      (
        push-ok code.task_size (b + 32) (task_value t) (b + 32 + code.task_size) [] pos refl,
        push-ok 8 (b + 24) (word 0) (b + 32) _ (omega arith) (omega arith),
        push-ok 8 (b + 16) (word task_fn) (b + 24) _ (omega arith) (omega arith),
        push-ok 8 (b + 8) (word context) (b + 16) _ (omega arith) (omega arith),
        push-ok 8 b (word code.task_init_trampoline) (b + 8) _ (omega arith) refl,
      )
      refl

-- A new task, whose stack is in the direct mapping of the two frames from number `n` on. The five values
-- lie above address `b`, where the task starts: the trampoline calls `task_fn` with `context` and a
-- null return address. All of them are outside of the two frames.
pub data IsCreated (code : Code) (task_fn context : ℕ) (s : System) (before : Bitmap) : Type 0 where
  created :
      (n b : ℕ) (during : Bitmap) (ws : List Write)
      → create_task code task_fn context s
        ≡ ok (
          length s.kernel.tasks,
          system
              (with_task s.kernel (set_rsp (new_task (range (nth_frame n) 2)) (some b)))
              (some during)
              (ws ++ s.writes),
        )
      → read_word (ws ++ s.writes) b ≡ some code.task_init_trampoline
      → run_trampoline (ws ++ s.writes) (b + 8) ≡ some (task_fn, context, b + 24)
      → read_word (ws ++ s.writes) (b + 24) ≡ some 0
      → All (λ w. phys_map_start + n * 4096 + 2 * 4096 ≤ w.address) ws
      → IsCreated code task_fn context s before
  out_of_frames :
      create_task code task_fn context s ≡ panic
      → NoneFree before 2
      → IsCreated code task_fn context s before

module _ (code : Code) (task_fn context : ℕ) (t : Task) (b : ℕ) (old : List Write) where
  read_word-code :
      read_word (stack_of code task_fn context t b ++ old) b ≡ some code.task_init_trampoline
  unfolding read_word
  read_word-code = ground arith

  run_trampoline-call :
      run_trampoline (stack_of code task_fn context t b ++ old) (b + 8)
      ≡ some (task_fn, context, b + 24)
  unfolding read_word run_trampoline
  run_trampoline-call = ground arith

  read_word-null : read_word (stack_of code task_fn context t b ++ old) (b + 24) ≡ some 0
  unfolding read_word
  read_word-null = ground arith

module _ (code : Code) (task_fn context : ℕ) (s : System) (before : Bitmap)
    (pos : 0 < code.task_size) (fits : code.task_size ≤ 4096)
    (small : 8 * length before ≤ max_memory_frames) (cell : s.frame_allocator ≡ some before) where
  base_of : ℕ → ℕ
  base_of n = phys_map_start + n * 4096 + (32768 - 32 - code.task_size)

  owned-ok :
      (r : Option FrameRange) (during : Bitmap)
      → BitmapAllocator.allocate_range 1 before ≡ ok (r, during)
      → allocate_owned_frames 1 s.frame_allocator
        ≡ ok (elim r [ none ↦ none | some frames ↦ some (owned frames) ], some during)
  unfolding allocate_owned_frames allocate_frames
  owned-ok r during e = rw (cell, e) refl

  create_task-ok :
      (n : ℕ) (during : Bitmap)
      → BitmapAllocator.allocate_range 1 before ≡ ok (some (range (nth_frame n) 2), during)
      → n + 2 ≤ 8 * length before
      → create_task code task_fn context s
        ≡ ok (
          length s.kernel.tasks,
          system
              (with_task s.kernel (set_rsp (new_task (range (nth_frame n) 2)) (some (base_of n))))
              (some during)
              (stack_of code task_fn context (new_task (range (nth_frame n) 2)) (base_of n)
                ++ s.writes),
        )
  unfolding create_task base_of
  create_task-ok n during e inside =
      let top : add_length (phys_map_start + n * 4096) stack_len
          ≡ ok (base_of n + 32 + code.task_size) =
        ground arith in
      rw
        (
          owned-ok (some (range (nth_frame n) 2)) during e,
          phys_to_virt-ok (n * 4096) (omega arith),
          top,
          prepare_stack-ok code task_fn context (new_task (range (nth_frame n) 2)) (base_of n) pos,
        )
        (ground arith)

  create_task-panic :
      (during : Bitmap)
      → BitmapAllocator.allocate_range 1 before ≡ ok (none, during)
      → create_task code task_fn context s ≡ panic
  unfolding create_task
  create_task-panic during e = rw (owned-ok none during e) refl

  outside :
      (n : ℕ) (t : Task)
      → All
          (λ w. phys_map_start + n * 4096 + 2 * 4096 ≤ w.address)
          (stack_of code task_fn context t (base_of n))
  unfolding base_of
  outside n t = (omega arith, (omega arith, (omega arith, (omega arith, (omega arith, tt)))))

  granted-IsCreated :
      (r : Option FrameRange) (during : Bitmap)
      → BitmapAllocator.allocate_range 1 before ≡ ok (r, during)
      → Grants 2 0 before during r
      → IsCreated code task_fn context s before
  granted-IsCreated r during e (refused er eb gone) =
      out_of_frames (create_task-panic during (e ∙ ap (λ o. ok (o, during)) er)) gone
  granted-IsCreated r during e (granted n er al inside was_free marks) =
      let t = new_task (range (nth_frame n) 2) in
      let place : (0 * 8 + n) * 4096 ≡ n * 4096 = omega arith in
      let given = e ∙ ap (λ o. ok (o, during)) (er ∙ ap (λ a. some (range (frame a) 2)) place) in
      created n (base_of n) during (stack_of code task_fn context t (base_of n))
        (create_task-ok n during given inside)
        (read_word-code code task_fn context t (base_of n) s.writes)
        (run_trampoline-call code task_fn context t (base_of n) s.writes)
        (read_word-null code task_fn context t (base_of n) s.writes) (outside n t)

-- With a `Task` of at most 4096 bytes and a bitmap of at most the size of the kernel's, create_task
-- makes a task that starts by calling its function with its context, but writes its stack outside of
-- the two frames that it owns. Otherwise no aligned pair of frames is free, and it panics.
pub create_task-IsCreated :
    (code : Code) (task_fn context : ℕ) (s : System) (before : Bitmap)
    → 0 < code.task_size
    → code.task_size ≤ 4096
    → s.frame_allocator ≡ some before
    → 8 * length before ≤ max_memory_frames
    → IsBytes before
    → IsCreated code task_fn context s before
create_task-IsCreated code task_fn context s before pos fits cell small b =
    let a = allocate_range-Allocates 1 before (omega arith) b (omega arith) in
    granted-IsCreated code task_fn context s before pos fits small cell a.result a.after a.returns
      a.grants
