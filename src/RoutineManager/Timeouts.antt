-- ===== src/RoutineManager/Timeouts.antt =====
-- The loops of routine_manager.c that end routines: `Routine_Manager_ProcessTimeout` and
-- `Routine_Manager_AbortAll`.
pub mod Left
pub mod Loops
use cant.Prelude.{
  ℕ, zero, suc, ◌+◌, ◌-◌, Bool, true, false, not, ◌&&◌, Option, none, some, List, [], ◌∷◌, ltb, leb,
  ◌==◌, if◌then◌else◌, set, get_or,
}
use cant.Prelude.Table.{entry_of, lookup}
use cant.Timer.{expired}
use cant.RoutineManager.{
  routine_status_failed, routine_status_stopped, RoutineDefinition, RoutineInstance, RoutineManager,
  no_instance, id_of, known, find_routine, free_routine_instance, stop_call, status_call,
  error_call,
}
use cant.RoutineManager.Calls.{timeout_error}

-- The instance of a timeout.
abbrev pub failed : RoutineInstance → RoutineInstance
failed x = record x { status = routine_status_failed; last_result_code = timeout_error }

module _ {W : Type 0} where
  -- The timeout callback, if there is one.
  unfoldable pub timeout_call : Option (W → W) → W → W
  timeout_call none w = w
  timeout_call (some f) w = f w

  -- Whether an instance of a routine has timed out.
  unfoldable pub overdue : ℕ → RoutineInstance → Option (RoutineDefinition W) → Bool
  overdue now x none = false
  overdue now x (some routine) = ltb 0 routine.timeout_ms && expired (some x.timeout_timer) now

  -- What the callbacks and the stop of a timeout do.
  unfoldable pub timeout_calls : RoutineManager W → W → ℕ → Option (RoutineDefinition W) → W
  timeout_calls m w id none = w
  timeout_calls m w id (some routine) =
      let w1 = timeout_call routine.timeout_callback w in
      let w2 = status_call m w1 id routine_status_failed in
      let w3 = error_call m w2 id timeout_error in (stop_call routine.stop_routine w3).0

  -- The manager without the instance that has timed out.
  abbrev pub timed_out : RoutineManager W → ℕ → RoutineInstance → RoutineManager W
  timed_out m i x =
      free_routine_instance (record m { active_routines = set m.active_routines i (failed x) }) i

  -- The loop of `Routine_Manager_ProcessTimeout` from index `i` on, or `none` without fuel. The
  -- `i--` after a removal and the `i++` of the loop cancel out, at 0 too.
  unfoldable pub timeout_loop : ℕ → ℕ → RoutineManager W → W → ℕ → Option (RoutineManager W × W)
  timeout_loop zero now m w i = if ltb i m.active_count then none else some (m, w)
  timeout_loop (suc fuel) now m w i =
      let x = get_or m.active_routines i no_instance in
      let routine = entry_of (find_routine m x.routine_id) in
      let passed = timeout_loop fuel now m w (i + 1) in
      let handled =
        timeout_loop fuel now (timed_out m i x) (timeout_calls m w x.routine_id routine) i in
      if ltb i m.active_count
      then if overdue now x routine then handled else passed
      else some (m, w)

  -- `Routine_Manager_ProcessTimeout`, with as many rounds as there are active routines.
  unfoldable pub process_timeout : ℕ → RoutineManager W → W → Option (RoutineManager W × W)
  process_timeout now m w =
      if not m.initialized then some (m, w) else timeout_loop m.active_count now m w 0

  -- What the stop and the callback of an abort do.
  unfoldable pub abort_calls : RoutineManager W → W → ℕ → Option (ℕ × RoutineDefinition W) → W
  abort_calls m w id none = status_call m w id routine_status_stopped
  abort_calls m w id (some (j, routine)) =
      status_call m (stop_call routine.stop_routine w).0 id routine_status_stopped

  -- The loop of `Routine_Manager_AbortAll`, or `none` without fuel.
  unfoldable pub abort_loop : ℕ → RoutineManager W → W → Option (RoutineManager W × W)
  abort_loop zero m w = if ltb 0 m.active_count then none else some (m, w)
  abort_loop (suc fuel) m w =
      let x = get_or m.active_routines 0 no_instance in
      let stopped = record m {
        active_routines = set m.active_routines 0 (record x { status = routine_status_stopped });
      } in
      let rest =
        abort_loop fuel (free_routine_instance stopped 0)
          (abort_calls m w x.routine_id (find_routine m x.routine_id)) in
      if ltb 0 m.active_count then rest else some (m, w)

  -- `Routine_Manager_AbortAll`, with as many rounds as there are active routines.
  unfoldable pub abort_all : RoutineManager W → W → Option (RoutineManager W × W)
  abort_all m w = if not m.initialized then some (m, w) else abort_loop m.active_count m w

  -- The instances that have not timed out.
  abbrev pub in_time : ℕ → List (RoutineDefinition W) → List RoutineInstance → List RoutineInstance
  in_time now routines [] = []
  in_time now routines (x ∷ xs) =
      let rest = in_time now routines xs in
      if overdue now x (lookup id_of x.routine_id routines) then rest else x ∷ rest
