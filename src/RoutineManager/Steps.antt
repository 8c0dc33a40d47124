-- ===== src/RoutineManager/Steps.antt =====
-- Each change of the tables of routine_manager.c keeps them well formed.
use cant.Prelude.{
  ℕ, ◌+◌, ◌<◌, ◌≤◌, ◌≡◌, Bool, true, false, not, Option, none, some, List, [], ◌∷◌, ◌++◌, ltb, leb,
  ◌==◌, if◌then◌else◌, set, length, length-set, arith, ap, sym, ◌∙◌, All, All-append, if_intro,
  append-nil, length-take,
}
use mathlib.Core.Path.{subst}
use cant.SessionManager.{SessionManager}
use cant.SessionManager.Calls.{get_state}
use cant.Prelude.Table.{is_some, lookup, Found, find_by-Found}
use cant.Prelude.Table.Arrays.{add-IsTable, lookup_added, remove-IsTable, lookup_removed, take_end}
use cant.RoutineManager.{
  RoutineDefinition, RoutineInstance, RoutineManager, id_of, instance_id, known, active,
  routine_status_stopped, max_routines, max_active_routines, find_active_routine,
  free_routine_instance, stop_call,
}
use cant.RoutineManager.Calls.{
  started, occupied, start_call, finish_start, start_in, stop_in, add_in, stop_removed, removed,
  remove_in,
}
use cant.RoutineManager.Timeouts.Left.{Left, free-Left}
use cant.RoutineManager.Valid.{
  Registered, IsValid, active-IsActive, Left-IsValid, free-IsValid, freed-IsValid,
}

module _ {W : Type 0} where
  abbrev Valid3 : RoutineManager W × W × Bool → Type 0
  Valid3 x = IsValid x.0

  added-Registered :
      (routines routines' : List (RoutineDefinition W)) (xs : List RoutineInstance)
      → ((k : ℕ)
          → is_some (lookup id_of k routines) ≡ true
          → is_some (lookup id_of k routines') ≡ true)
      → All (Registered routines) xs
      → All (Registered routines') xs
  added-Registered routines routines' [] f h = tt
  added-Registered routines routines' (x ∷ xs) f h =
      (f x.routine_id h.0, added-Registered routines routines' xs f h.1)

  occupied-IsValid :
      (m : RoutineManager W) (x : RoutineInstance)
      → IsValid m
      → m.active_count < max_active_routines
      → lookup instance_id x.routine_id (active m) ≡ none
      → Registered (known m) x
      → IsValid (occupied m x)
  occupied-IsValid m x v room fresh reg = record {
    routines = v.routines;
    instances = add-IsTable v.instances x room fresh;
    registered =
        subst (All (Registered (known m))) (sym (take_end v.instances x room))
          (All-append (Registered (known m)) (active m) (x ∷ []) v.registered (reg, tt));
  }

  -- The instance that has been set up is taken back.
  taken_back-IsValid :
      (m : RoutineManager W) (x : RoutineInstance)
      → IsValid m
      → m.active_count < max_active_routines
      → IsValid (free_routine_instance (occupied m x) m.active_count)
  taken_back-IsValid m x v room =
      let size : length (active m) ≡ m.active_count = omega (
        arith,
        length-take m.active_count m.active_routines,
        v.instances.sized,
        v.instances.bounded,
      ) in
      let fits : m.active_count + 1 ≤ length (set m.active_routines m.active_count x) =
        omega (arith, length-set m.active_routines m.active_count x, v.instances.sized) in
      let l =
        subst (λ k. Left (occupied m x) (free_routine_instance (occupied m x) k) (active m ++ []))
          size (free-Left (occupied m x) (active m) [] x fits (take_end v.instances x room)) in
      Left-IsValid m (free_routine_instance (occupied m x) m.active_count) (active m) v
        (record {
          left = l.left ∙ append-nil (active m);
          counted = l.counted ∙ ap length (append-nil (active m));
          sized = l.sized ∙ length-set m.active_routines m.active_count x;
          table = l.table;
          table_count = l.table_count;
          set_up = l.set_up;
        })
        (active-IsActive m v)

  pub stop_in-IsValid :
      (m : RoutineManager W) (w : W) (id : ℕ) (o : Option (ℕ × RoutineDefinition W))
      (p : Option (ℕ × RoutineInstance))
      → IsValid m
      → Found instance_id id (active m) p
      → IsValid (stop_in m w id o p).0
  unfolding stop_in
  stop_in-IsValid m w id none p v h = v
  stop_in-IsValid m w id (some (j, routine)) none v h = v
  stop_in-IsValid m w id (some (j, routine)) (some (i, x)) v h =
      if_intro Valid3 (not (stop_call routine.stop_routine w).1) _ _ (λ running. v)
        (λ stopped. freed-IsValid m id i x (record x { status = routine_status_stopped }) v h)

  pub add_in-IsValid :
      (m : RoutineManager W) (routine : RoutineDefinition W) (o : Option (ℕ × RoutineDefinition W))
      → IsValid m
      → Found id_of routine.routine_id (known m) o
      → IsValid (add_in m routine o).0
  unfolding add_in
  add_in-IsValid m routine (some found) v h = v
  add_in-IsValid m routine none v h =
      if_intro (λ (x : RoutineManager W × Bool). IsValid x.0) (leb max_routines m.routine_count) _ _
        (λ full. v)
        (λ room.
          let free : m.routine_count < max_routines = ground arith in
          record {
            routines = add-IsTable v.routines routine free h;
            instances = v.instances;
            registered =
                added-Registered (known m) _ (active m)
                  (λ k e. rw (lookup_added v.routines k routine free h) (ground (arith, e)))
                  v.registered;
          })

  -- Without an active instance of its own, a routine is not missed by the others.
  removed-Registered :
      (id : ℕ) (routines routines' : List (RoutineDefinition W)) (xs : List RoutineInstance)
      → ((k : ℕ) → lookup id_of k routines' ≡ (if k == id then none else lookup id_of k routines))
      → lookup instance_id id xs ≡ none
      → All (Registered routines) xs
      → All (Registered routines') xs
  unfolding lookup
  removed-Registered id routines routines' [] f n h = tt
  removed-Registered id routines routines' (x ∷ xs) f n h =
      let other : (x.routine_id == id) ≡ false = ground (arith, n) in
      (
        rw (f x.routine_id, other) (h.0),
        removed-Registered id routines routines' xs f (ground (arith, n)) h.1,
      )

  removed-IsValid :
      (m : RoutineManager W) (id j : ℕ) (routine : RoutineDefinition W)
      → IsValid m
      → Found id_of id (known m) (some (j, routine))
      → lookup instance_id id (active m) ≡ none
      → IsValid (removed m j)
  removed-IsValid m id j routine v h n = record {
    routines = remove-IsTable v.routines id j routine h;
    instances = v.instances;
    registered =
        removed-Registered id (known m) (known (removed m j)) (active m)
          (λ k. lookup_removed v.routines id k j routine h) n v.registered;
  }

  stop_removed-IsValid :
      (m : RoutineManager W) (w : W) (id j : ℕ) (routine : RoutineDefinition W)
      (o : Option (ℕ × RoutineInstance))
      → IsValid m
      → Found id_of id (known m) (some (j, routine))
      → Found instance_id id (active m) o
      → IsValid (removed (stop_removed m w routine o).0 j)
  unfolding stop_removed
  stop_removed-IsValid m w id j routine none v h n = removed-IsValid m id j routine v h n
  stop_removed-IsValid m w id j routine (some (i, x)) v h n =
      let (u, gone, same) = free-IsValid m id i x v n in
      removed-IsValid (free_routine_instance m i) id j routine u
        (subst (λ t. Found id_of id t (some (j, routine))) (sym same) h) gone

  pub remove_in-IsValid :
      (m : RoutineManager W) (w : W) (id : ℕ) (o : Option (ℕ × RoutineDefinition W))
      → IsValid m
      → Found id_of id (known m) o
      → IsValid (remove_in m w id o).0
  unfolding remove_in
  remove_in-IsValid m w id none v h = v
  remove_in-IsValid m w id (some (j, routine)) v h =
      stop_removed-IsValid m w id j routine (find_active_routine m id) v h
        (find_by-Found instance_id id (active m))

  finish_start-IsValid :
      (m : RoutineManager W) (x : RoutineInstance) (id : ℕ) (r : W × Bool)
      → IsValid (occupied m x)
      → IsValid (free_routine_instance (occupied m x) m.active_count)
      → IsValid (finish_start (occupied m x) m.active_count id r).0
  unfolding finish_start
  finish_start-IsValid m x id (w, true) v u = v
  finish_start-IsValid m x id (w, false) v u = u

module _ {W : Type 0} (sessions : W → SessionManager) where
  pub start_in-IsValid :
      (m : RoutineManager W) (w : W) (bytes : List ℕ) (now id : ℕ)
      (o : Option (ℕ × RoutineDefinition W)) (p : Option (ℕ × RoutineInstance))
      → IsValid m
      → Found id_of id (known m) o
      → Found instance_id id (active m) p
      → IsValid (start_in sessions m w bytes now o p).0
  unfolding start_in
  start_in-IsValid m w bytes now id none p v h n = v
  start_in-IsValid m w bytes now id (some (j, routine)) (some (i, x)) v h n =
      if_intro Valid3 (ltb (get_state (sessions w)).security_level routine.security_level) _ _
        (λ low. v) (λ enough. v)
  start_in-IsValid m w bytes now id (some (j, routine)) none v h n =
      let x = started m routine now in
      let fresh : lookup instance_id routine.routine_id (active m) ≡ none =
        ap (λ k. lookup instance_id k (active m)) (h.2) ∙ n in
      let reg : is_some (lookup id_of routine.routine_id (known m)) ≡ true =
        ap (λ k. is_some (lookup id_of k (known m))) (h.2) ∙ ap is_some (h.1) in
      if_intro Valid3 (ltb (get_state (sessions w)).security_level routine.security_level) _ _
        (λ low. v)
        (λ enough.
          if_intro Valid3 (leb max_active_routines m.active_count) _ _ (λ full. v)
            (λ room.
              let free : m.active_count < max_active_routines = ground arith in
              finish_start-IsValid m x routine.routine_id (start_call routine.start_routine w bytes)
                (occupied-IsValid m x v free fresh reg) (taken_back-IsValid m x v free)))
