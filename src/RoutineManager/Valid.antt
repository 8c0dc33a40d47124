-- ===== src/RoutineManager/Valid.antt =====
-- The two tables of routine_manager.c are well formed, and every active routine is known.
use cant.Prelude.{
  ℕ, zero, suc, ◌≤◌, ◌≡◌, refl, true, none, some, List, [], ◌∷◌, ◌++◌, remove, get_elem?, length,
  arith, ap, sym, ◌∙◌, length-take, All, All-remove, if_intro,
}
use mathlib.Core.Path.{subst}
use cant.Prelude.Table.{is_some, lookup, Distinct, Found, lookup-remove, remove-Distinct}
use cant.Prelude.Table.Arrays.{IsTable, remove-append}
use cant.RoutineManager.{
  RoutineDefinition, RoutineInstance, RoutineManager, id_of, instance_id, known, active,
  max_routines, max_active_routines, free_routine_instance,
}
use cant.RoutineManager.Timeouts.{overdue, in_time}
use cant.RoutineManager.Timeouts.Left.{Left, free-Left, freed, freed-Left}

-- An instance whose routine is known.
abbrev pub Registered : {W : Type 0} → List (RoutineDefinition W) → RoutineInstance → Type 0
Registered routines x = is_some (lookup id_of x.routine_id routines) ≡ true

-- Instances that may be the active ones.
pub record IsActive {W : Type 0} (routines : List (RoutineDefinition W)) (ys : List RoutineInstance)
    : Type 0 where
  pub distinct : Distinct instance_id ys
  pub bounded : length ys ≤ max_active_routines
  pub registered : All (Registered routines) ys

-- The manager's two tables are well formed, and each active routine is known.
pub record IsValid {W : Type 0} (m : RoutineManager W) : Type 0 where
  pub routines : IsTable id_of max_routines m.routines m.routine_count
  pub instances : IsTable instance_id max_active_routines m.active_routines m.active_count
  pub registered : All (Registered (known m)) (active m)

length-remove-le : {A : Type 0} (xs : List A) (i : ℕ) → length (remove xs i) ≤ length xs
length-remove-le [] i = omega arith
length-remove-le (x ∷ xs) zero = omega arith
length-remove-le (x ∷ xs) (suc i) = omega (arith, length-remove-le xs i)

-- An element of a list with what stands before and behind it.
pub split_at :
    {A : Type 0} (xs : List A) (i : ℕ) (x : A)
    → get_elem? xs i ≡ some x
    → (pre : List A) × (rest : List A) × (xs ≡ pre ++ x ∷ rest) × (length pre ≡ i)
split_at [] i x e = ground arith
split_at (y ∷ xs) zero x e =
    let same : y ≡ x = ground (arith, e) in ([], xs, ap (λ t. t ∷ xs) same, refl)
split_at (y ∷ xs) (suc i) x e =
    let (pre, rest, whole, size) = split_at xs i x e in
    (y ∷ pre, rest, ap (λ t. y ∷ t) whole, ap suc size)

module _ {W : Type 0} where
  pub active-IsActive : (m : RoutineManager W) → IsValid m → IsActive (known m) (active m)
  active-IsActive m v = record {
    distinct = v.instances.distinct;
    bounded = omega (arith, v.instances.bounded, length-take m.active_count m.active_routines);
    registered = v.registered;
  }

  remove-IsActive :
      (routines : List (RoutineDefinition W)) (ys : List RoutineInstance) (i : ℕ)
      → IsActive routines ys
      → IsActive routines (remove ys i)
  remove-IsActive routines ys i a = record {
    distinct = remove-Distinct instance_id i ys a.distinct;
    bounded = omega (arith, a.bounded, length-remove-le ys i);
    registered = All-remove (Registered routines) ys i a.registered;
  }

  -- A manager that keeps its routines and has such instances left is valid.
  pub Left-IsValid :
      (m m' : RoutineManager W) (ys : List RoutineInstance)
      → IsValid m
      → Left m m' ys
      → IsActive (known m) ys
      → IsValid m'
  Left-IsValid m m' ys v l a =
      let same : known m' ≡ known m = rw (l.table, l.table_count) refl in
      record {
        routines = rw (l.table, l.table_count) v.routines;
        instances = record {
          sized = l.sized ∙ v.instances.sized;
          bounded = omega (arith, l.counted, a.bounded);
          distinct = subst (Distinct instance_id) (sym (l.left)) a.distinct;
        };
        registered =
            subst (λ t. All (Registered t) (active m')) (sym same)
              (subst (All (Registered (known m))) (sym (l.left)) a.registered);
      }

  lookup-in_time-none :
      (now : ℕ) (routines : List (RoutineDefinition W)) (k : ℕ) (ys : List RoutineInstance)
      → lookup instance_id k ys ≡ none
      → lookup instance_id k (in_time now routines ys) ≡ none
  unfolding lookup
  lookup-in_time-none now routines k [] h = refl
  lookup-in_time-none now routines k (y ∷ ys) h =
      ground (arith, lookup-in_time-none now routines k ys)

  in_time-le :
      (now : ℕ) (routines : List (RoutineDefinition W)) (ys : List RoutineInstance)
      → length (in_time now routines ys) ≤ length ys
  in_time-le now routines [] = omega arith
  in_time-le now routines (y ∷ ys) = ground (arith, in_time-le now routines ys)

  -- Those that are in time may stay.
  pub in_time-IsActive :
      (now : ℕ) (routines : List (RoutineDefinition W)) (ys : List RoutineInstance)
      → IsActive routines ys
      → IsActive routines (in_time now routines ys)
  in_time-IsActive now routines [] a = a
  in_time-IsActive now routines (y ∷ ys) a =
      let tail = in_time-IsActive now routines ys (record {
        distinct = a.distinct.1;
        bounded = omega (arith, a.bounded);
        registered = a.registered.1;
      }) in
      if_intro (IsActive routines) (overdue now y (lookup id_of y.routine_id routines)) _ _
        (λ late. tail)
        (λ early. record {
          distinct =
              (lookup-in_time-none now routines y.routine_id ys (a.distinct.0), tail.distinct);
          bounded = omega (arith, a.bounded, in_time-le now routines ys);
          registered = (a.registered.0, tail.registered);
        })

  -- The instance of a search is freed.
  pub free-IsValid :
      (m : RoutineManager W) (id i : ℕ) (x : RoutineInstance)
      → IsValid m
      → Found instance_id id (active m) (some (i, x))
      → IsValid (free_routine_instance m i)
        × (lookup instance_id id (active (free_routine_instance m i)) ≡ none)
        × (known (free_routine_instance m i) ≡ known m)
  free-IsValid m id i x v h =
      let (pre, rest, whole, size) = split_at (active m) i x (h.3) in
      let fits : m.active_count ≤ length m.active_routines =
        omega (arith, v.instances.sized, v.instances.bounded) in
      let l =
        subst (λ k. Left m (free_routine_instance m k) (pre ++ rest)) size
          (free-Left m pre rest x fits whole) in
      let shorter : remove (active m) i ≡ pre ++ rest =
        ap (λ t. remove t i) whole
        ∙ ap (remove (pre ++ x ∷ rest)) (sym size)
        ∙ remove-append pre rest x in
      (
        Left-IsValid m (free_routine_instance m i) (pre ++ rest) v l (
            subst (IsActive (known m)) shorter
              (remove-IsActive (known m) (active m) i (active-IsActive m v))),
        ap (lookup instance_id id) (l.left ∙ sym shorter)
            ∙ lookup-remove instance_id id id i (active m) x v.instances.distinct (h.3) (h.2)
            ∙ ground arith,
        rw (l.table, l.table_count) refl,
      )

  -- The instance of a search is changed and freed.
  pub freed-IsValid :
      (m : RoutineManager W) (id i : ℕ) (x y : RoutineInstance)
      → IsValid m
      → Found instance_id id (active m) (some (i, x))
      → IsValid (freed m i y)
  freed-IsValid m id i x y v h =
      let (pre, rest, whole, size) = split_at (active m) i x (h.3) in
      let fits : m.active_count ≤ length m.active_routines =
        omega (arith, v.instances.sized, v.instances.bounded) in
      let l =
        subst (λ k. Left m (freed m k y) (pre ++ rest)) size
          (freed-Left m pre rest x y fits whole) in
      let shorter : remove (active m) i ≡ pre ++ rest =
        ap (λ t. remove t i) whole
        ∙ ap (remove (pre ++ x ∷ rest)) (sym size)
        ∙ remove-append pre rest x in
      Left-IsValid m (freed m i y) (pre ++ rest) v l (
        subst (IsActive (known m)) shorter
          (remove-IsActive (known m) (active m) i (active-IsActive m v)))
