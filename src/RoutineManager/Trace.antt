-- ===== src/RoutineManager/Trace.antt =====
-- Sequences of calls on the routine manager.
use cant.Prelude.{
  ℕ, ◌≤◌, ◌≡◌, Bool, not, Option, none, some, List, [], ◌∷◌, if◌then◌else◌, length, arith, inl, inr,
  if_intro, Option-cases,
}
use mathlib.Core.Path.{subst}
use cant.Prelude.Table.{find_by-Found}
use cant.SessionManager.{SessionManager}
use cant.RoutineManager.{
  RoutineDefinition, RoutineInstance, RoutineManager, id_of, instance_id, known, active,
  find_routine, find_active_routine,
}
use cant.RoutineManager.Calls.{start_routine, stop_routine, add_routine, remove_routine}
use cant.RoutineManager.Timeouts.{process_timeout, abort_all, in_time}
use cant.RoutineManager.Timeouts.Left.{Leaves}
use cant.RoutineManager.Timeouts.Loops.{process_timeout-Leaves, abort_all-Leaves}
use cant.RoutineManager.Valid.{IsActive, IsValid, active-IsActive, Left-IsValid, in_time-IsActive}
use cant.RoutineManager.Steps.{start_in-IsValid, stop_in-IsValid, add_in-IsValid, remove_in-IsValid}

-- The calls on a manager that is set up, with their arguments.
pub data Call (W : Type 0) : Type 0 where
  call_start : (id : ℕ) (bytes : List ℕ) (now : ℕ) → Call W
  call_stop : (id : ℕ) → Call W
  call_add : Option (RoutineDefinition W) → Call W
  call_remove : (id : ℕ) → Call W
  call_process_timeout : (now : ℕ) → Call W
  call_abort_all : Call W

module _ {W : Type 0} (sessions : W → SessionManager) where
  unfoldable pub call : RoutineManager W → W → Call W → Option (RoutineManager W × W)
  call m w (call_start id bytes now) =
      let (m', w', done) = start_routine sessions m w id bytes now in some (m', w')
  call m w (call_stop id) = let (m', w', done) = stop_routine m w id in some (m', w')
  call m w (call_add routine) = let (m', done) = add_routine m routine in some (m', w)
  call m w (call_remove id) = let (m', w', done) = remove_routine m w id in some (m', w')
  call m w (call_process_timeout now) = process_timeout now m w
  call m w call_abort_all = abort_all m w

  unfoldable pub run_calls : RoutineManager W → W → List (Call W) → Option (RoutineManager W × W)
  run_calls m w [] = some (m, w)
  run_calls m w (c ∷ cs) = elim (call m w c) [ none ↦ none | some (m', w') ↦ run_calls m' w' cs ]

  abbrev ValidResult : Option (RoutineManager W × W) → Type 0
  ValidResult none = ⊥
  ValidResult (some (m, w)) = IsValid m

  Leaves-IsValid :
      (m : RoutineManager W) (ys : List RoutineInstance) (o : Option (RoutineManager W × W))
      → IsValid m
      → IsActive (known m) ys
      → Leaves m ys o
      → ValidResult o
  Leaves-IsValid m ys none v a l = l
  Leaves-IsValid m ys (some (m', w')) v a l = Left-IsValid m m' ys v l a

  start_routine-IsValid :
      (m : RoutineManager W) (w : W) (id : ℕ) (bytes : List ℕ) (now : ℕ)
      → IsValid m
      → IsValid (start_routine sessions m w id bytes now).0
  unfolding start_routine
  start_routine-IsValid m w id bytes now v =
      if_intro (λ (x : RoutineManager W × W × Bool). IsValid x.0) (not m.initialized) _ _ (λ off. v)
        (λ on.
          start_in-IsValid sessions m w bytes now id (find_routine m id) (find_active_routine m id)
            v (find_by-Found id_of id (known m)) (find_by-Found instance_id id (active m)))

  stop_routine-IsValid :
      (m : RoutineManager W) (w : W) (id : ℕ) → IsValid m → IsValid (stop_routine m w id).0
  unfolding stop_routine
  stop_routine-IsValid m w id v =
      if_intro (λ (x : RoutineManager W × W × Bool). IsValid x.0) (not m.initialized) _ _ (λ off. v)
        (λ on.
          stop_in-IsValid m w id (find_routine m id) (find_active_routine m id) v
            (find_by-Found instance_id id (active m)))

  add_routine-IsValid :
      (m : RoutineManager W) (routine : Option (RoutineDefinition W))
      → IsValid m
      → IsValid (add_routine m routine).0
  unfolding add_routine
  add_routine-IsValid m none v = v
  add_routine-IsValid m (some routine) v =
      if_intro (λ (x : RoutineManager W × Bool). IsValid x.0) (not m.initialized) _ _ (λ off. v)
        (λ on.
          add_in-IsValid m routine (find_routine m routine.routine_id) v
            (find_by-Found id_of routine.routine_id (known m)))

  remove_routine-IsValid :
      (m : RoutineManager W) (w : W) (id : ℕ) → IsValid m → IsValid (remove_routine m w id).0
  unfolding remove_routine
  remove_routine-IsValid m w id v =
      if_intro (λ (x : RoutineManager W × W × Bool). IsValid x.0) (not m.initialized) _ _ (λ off. v)
        (λ on. remove_in-IsValid m w id (find_routine m id) v (find_by-Found id_of id (known m)))

  process_timeout-IsValid :
      (m : RoutineManager W) (w : W) (now : ℕ) → IsValid m → ValidResult (process_timeout now m w)
  process_timeout-IsValid m w now v =
      let fits : m.active_count ≤ length m.active_routines =
        omega (arith, v.instances.sized, v.instances.bounded) in
      let a = active-IsActive m v in
      Leaves-IsValid m (if m.initialized then in_time now (known m) (active m) else active m)
        (process_timeout now m w) v
        (if_intro (IsActive (known m)) m.initialized _ _
          (λ on. in_time-IsActive now (known m) (active m) a) (λ off. a))
        (process_timeout-Leaves now m w fits)

  abort_all-IsValid : (m : RoutineManager W) (w : W) → IsValid m → ValidResult (abort_all m w)
  abort_all-IsValid m w v =
      let fits : m.active_count ≤ length m.active_routines =
        omega (arith, v.instances.sized, v.instances.bounded) in
      let nothing : IsActive (known m) [] = record {
        distinct = tt;
        bounded = omega arith;
        registered = tt;
      } in
      Leaves-IsValid m (if m.initialized then [] else active m) (abort_all m w) v
        (if_intro (IsActive (known m)) m.initialized _ _ (λ on. nothing)
          (λ off. active-IsActive m v))
        (abort_all-Leaves m w fits)

  call-IsValid : (m : RoutineManager W) (w : W) (c : Call W) → IsValid m → ValidResult (call m w c)
  unfolding call
  call-IsValid m w (call_start id bytes now) v = start_routine-IsValid m w id bytes now v
  call-IsValid m w (call_stop id) v = stop_routine-IsValid m w id v
  call-IsValid m w (call_add routine) v = add_routine-IsValid m routine v
  call-IsValid m w (call_remove id) v = remove_routine-IsValid m w id v
  call-IsValid m w (call_process_timeout now) v = process_timeout-IsValid m w now v
  call-IsValid m w call_abort_all v = abort_all-IsValid m w v

  run_calls-ValidResult :
      (m : RoutineManager W) (w : W) (cs : List (Call W))
      → IsValid m
      → ValidResult (run_calls m w cs)
  unfolding run_calls
  run_calls-ValidResult m w [] v = v
  run_calls-ValidResult m w (c ∷ cs) v = elim (Option-cases (call m w c)) [
    | inl e ↦ absurd (subst ValidResult e (call-IsValid m w c v))
    | inr ((m', w'), e) ↦
        rw (run_calls, e)
          (run_calls-ValidResult m' w' cs (subst ValidResult e (call-IsValid m w c v)))
  ]

  -- Every sequence of starts, stops, additions, removals, timeout checks and aborts on a valid
  -- manager comes to its end and leaves it valid: the ids of the routines differ and there are at
  -- most 32, the ids of the active ones differ and there are at most 8, and every active routine is
  -- a known one.
  pub run_calls-IsValid :
      (m : RoutineManager W) (w : W) (cs : List (Call W))
      → IsValid m
      → (m' : RoutineManager W) × (w' : W) × (run_calls m w cs ≡ some (m', w')) × IsValid m'
  run_calls-IsValid m w cs v = elim (Option-cases (run_calls m w cs)) [
    | inl e ↦ absurd (subst ValidResult e (run_calls-ValidResult m w cs v))
    | inr ((m', w'), e) ↦ (m', w', e, subst ValidResult e (run_calls-ValidResult m w cs v))
  ]
