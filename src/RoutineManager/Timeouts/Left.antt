-- ===== src/RoutineManager/Timeouts/Left.antt =====
-- What the loops of routine_manager.c leave when they free instances.
use cant.Prelude.{
  ℕ, suc, ◌+◌, ◌≤◌, ◌≡◌, refl, false, Option, none, some, List, ◌∷◌, ◌++◌, leb, take, set, remove,
  length, arith, ap, sym, ◌∙◌, length-set, length-append, length-take,
}
use cant.Prelude.Table.Arrays.{
  take-set, take-shift_down, length-shift_down, set-append, remove-append,
}
use cant.RoutineManager.{RoutineInstance, RoutineManager, known, active, free_routine_instance}

-- What a loop is to leave: the given instances, and the rest of the manager as it was.
pub record Left {W : Type 0} (m m' : RoutineManager W) (ys : List RoutineInstance) : Type 0 where
  pub left : active m' ≡ ys
  pub counted : m'.active_count ≡ length ys
  pub sized : length m'.active_routines ≡ length m.active_routines
  pub table : m'.routines ≡ m.routines
  pub table_count : m'.routine_count ≡ m.routine_count
  pub set_up : m'.initialized ≡ m.initialized

abbrev pub Leaves :
    {W : Type 0} → RoutineManager W → List RoutineInstance → Option (RoutineManager W × W) → Type 0
Leaves m ys none = ⊥
Leaves m ys (some (m', w')) = Left m m' ys

pub front_length :
    (n : ℕ) (xs ys : List RoutineInstance) → n ≤ length xs → take n xs ≡ ys → length ys ≡ n
front_length n xs ys h e = ap length (sym e) ∙ omega (arith, length-take n xs)

module _ {W : Type 0} where
  -- The manager without the instance at an index, after a change of it.
  abbrev pub freed : RoutineManager W → ℕ → RoutineInstance → RoutineManager W
  freed m i y = free_routine_instance (record m { active_routines = set m.active_routines i y }) i

  -- A freed instance leaves those before and behind it.
  pub free-Left :
      (m : RoutineManager W) (pre rest : List RoutineInstance) (x : RoutineInstance)
      → m.active_count ≤ length m.active_routines
      → active m ≡ pre ++ x ∷ rest
      → Left m (free_routine_instance m (length pre)) (pre ++ rest)
  unfolding free_routine_instance
  free-Left m pre rest x h e =
      let n = m.active_count in
      let size : n ≡ length pre + suc (length rest) = omega (
        arith,
        front_length n m.active_routines (pre ++ x ∷ rest) h e,
        length-append pre (x ∷ rest),
      ) in
      let inside : leb n (length pre) ≡ false = ground arith in
      rw inside (record {
        left =
            take-shift_down m.active_routines n (length pre) h (omega arith)
            ∙ ap (λ t. remove t (length pre)) e
            ∙ remove-append pre rest x;
        counted = omega (arith, length-append pre rest);
        sized = length-shift_down m.active_routines n (length pre) h;
        table = refl;
        table_count = refl;
        set_up = refl;
      })

  pub freed-Left :
      (m : RoutineManager W) (pre rest : List RoutineInstance) (x y : RoutineInstance)
      → m.active_count ≤ length m.active_routines
      → active m ≡ pre ++ x ∷ rest
      → Left m (freed m (length pre) y) (pre ++ rest)
  freed-Left m pre rest x y h e =
      let xs = set m.active_routines (length pre) y in
      let front : take m.active_count xs ≡ pre ++ y ∷ rest =
        take-set m.active_count (length pre) m.active_routines y
        ∙ ap (λ t. set t (length pre) y) e
        ∙ set-append pre rest x y in
      let same = length-set m.active_routines (length pre) y in
      let l =
        free-Left (record m { active_routines = xs }) pre rest y (omega (arith, same)) front in
      record {
        left = l.left;
        counted = l.counted;
        sized = l.sized ∙ same;
        table = l.table;
        table_count = l.table_count;
        set_up = l.set_up;
      }

  pub Left-Leaves :
      (m m1 : RoutineManager W) (zs ys : List RoutineInstance) (o : Option (RoutineManager W × W))
      → Left m m1 zs
      → Leaves m1 ys o
      → Leaves m ys o
  Left-Leaves m m1 zs ys none l k = k
  Left-Leaves m m1 zs ys (some (m', w')) l k = record {
    left = k.left;
    counted = k.counted;
    sized = k.sized ∙ l.sized;
    table = k.table ∙ l.table;
    table_count = k.table_count ∙ l.table_count;
    set_up = k.set_up ∙ l.set_up;
  }

  pub stays-Left :
      (m : RoutineManager W) (ys : List RoutineInstance)
      → m.active_count ≤ length m.active_routines
      → active m ≡ ys
      → Left m m ys
  stays-Left m ys h e = record {
    left = e;
    counted = sym (front_length m.active_count m.active_routines ys h e);
    sized = refl;
    table = refl;
    table_count = refl;
    set_up = refl;
  }

  pub Left-known :
      (m m1 : RoutineManager W) (zs : List RoutineInstance) → Left m m1 zs → known m1 ≡ known m
  Left-known m m1 zs l = rw (l.table, l.table_count) refl
