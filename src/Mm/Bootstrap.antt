-- ===== src/Mm/Bootstrap.antt =====
-- The mapper that `create_page_table_template` of src/mm.rs is called with: the bump allocator, and
-- the identity mapping of the first GiB. It keeps what `Mapper` relies on.
use testos.Base.{
  ℕ, zero, suc, ◌+◌, ◌*◌, ◌%◌, ◌≤◌, ◌<◌, ◌≡◌, ◌≢◌, refl, subst, arith, Option, none, some, ltb,
  Outcome, ok, ◌>>◌, assert,
}
use testos.Addr.{Address}
use testos.Frame.{Frame, frame}
use testos.FrameRange.{FrameRange, range}
use testos.BumpAllocator
use testos.BumpAllocator.{BumpAllocator, bump}
use testos.BumpAllocator.Laws.{rest_of, allocate-some}
use testos.Paging.Action.{Mapper}
use testos.Paging.Supply.{Takes, is_empty, gives}

unfoldable pub first_gb_translator : Address → Outcome (Option Address)
first_gb_translator phys = do assert (ltb phys (1024 * 1024 * 1024)); ok (some phys)

abbrev pub bootstrap_mapper : Address → Mapper BumpAllocator
bootstrap_mapper level_4 = record {
  level_4 = level_4;
  translator = first_gb_translator;
  frame_allocator = BumpAllocator.allocate;
}

-- The frames left are whole pages in the first GiB, above address 0.
abbrev pub IsUsable : Option FrameRange → Type 0
IsUsable none = Unit
IsUsable (some r) =
    (0 < r.count)
    × (r.first.start % 4096 ≡ 0)
    × (0 < r.first.start)
    × (r.first.start + r.count * 4096 ≤ 1024 * 1024 * 1024)

abbrev pub IsIn : Option FrameRange → Address → Type 0
IsIn none x = ⊥
IsIn (some r) x = (r.first.start ≤ x) × (x < r.first.start + r.count * 4096)

abbrev pub Usable : BumpAllocator → Type 0
Usable a = IsUsable a.remain

abbrev pub Left : BumpAllocator → Address → Type 0
Left a x = IsIn a.remain x

rest_of-suc : (f : Frame) (n : ℕ) → rest_of f (suc n) ≡ some (range f (suc n))
rest_of-suc f n = ground arith

rest-IsUsable :
    (f : Frame) (n : ℕ)
    → IsUsable (some (range f (suc n)))
    → IsUsable (rest_of (frame (f.start + 4096)) n)
rest-IsUsable f zero u = tt
rest-IsUsable f (suc n) u =
    rw (rest_of-suc (frame (f.start + 4096)) n)
      (omega arith, omega (arith, u.1), omega arith, omega (arith, u.3))

rest-IsIn :
    (f : Frame) (n : ℕ) (x : Address)
    → IsIn (rest_of (frame (f.start + 4096)) n) x
    → IsIn (some (range f (suc n))) x × (x ≢ f.start)
rest-IsIn f zero x i = absurd i
rest-IsIn f (suc n) x i =
    let j = subst (λ r. IsIn r x) (rest_of-suc (frame (f.start + 4096)) n) i in
    ((omega (arith, j.0), omega (arith, j.1)), λ e. omega (arith, j.0))

first_gb-ok : (x : Address) → x < 1024 * 1024 * 1024 → first_gb_translator x ≡ ok (some x)
unfolding first_gb_translator
first_gb-ok x h = ground arith

gives_first :
    (level_4 : Address) (f : Frame) (n : ℕ)
    → IsUsable (some (range f (suc n)))
    → Takes (bootstrap_mapper level_4) Usable Left (bump (some (range f (suc n))))
gives_first level_4 f n u =
    gives f (bump (rest_of (frame (f.start + 4096)) n)) f.start
      (allocate-some f n u.1 (omega (arith, u.3))) u.1 (omega (arith, u.3))
      (first_gb-ok f.start (omega (arith, u.3)))
      (record { not_null = λ e. omega (arith, u.2); aligned = u.1; fits = omega (arith, u.3) })
      (omega arith, omega arith) (rest-IsUsable f n u) (λ x i. rest-IsIn f n x i)

gives_nothing : (level_4 : Address) → Takes (bootstrap_mapper level_4) Usable Left (bump none)
gives_nothing level_4 = is_empty (bump none) (unfold BumpAllocator.allocate in refl) tt (λ x i. i)

gives_from :
    (level_4 : Address) (f : Frame) (n : ℕ)
    → IsUsable (some (range f n))
    → Takes (bootstrap_mapper level_4) Usable Left (bump (some (range f n)))
gives_from level_4 f zero u = absurd (omega (arith, u.0))
gives_from level_4 f (suc n) u = gives_first level_4 f n u

gives_any :
    (level_4 : Address) (r : Option FrameRange)
    → IsUsable r
    → Takes (bootstrap_mapper level_4) Usable Left (bump r)
gives_any level_4 none u = gives_nothing level_4
gives_any level_4 (some r) u = gives_from level_4 r.first r.count u

-- Every call of the bump allocator on such frames gives one that is not given again, or there is
-- none left.
pub bump-Takes :
    (level_4 : Address) (a : BumpAllocator)
    → Usable a
    → Takes (bootstrap_mapper level_4) Usable Left a
bump-Takes level_4 a u = gives_any level_4 a.remain u
