-- ===== src/RoutineManager/Calls.antt =====
-- The calls of routine_manager.c on `routine_manager`.
use cant.Prelude.{
  ℕ, ◌+◌, ◌-◌, Bool, true, false, not, Option, none, some, List, ltb, leb, if◌then◌else◌, set,
  get_or,
}
use cant.Prelude.Table.{entry_of, shift_down, is_some}
use cant.SessionManager.{SessionManager}
use cant.SessionManager.Calls.{get_state}
use cant.RoutineManager.{
  RoutineStatus, routine_status_inactive, routine_status_running, routine_status_stopped,
  RoutineResult, RoutineDefinition, RoutineInstance, RoutineManager, max_routines,
  max_active_routines, no_instance, find_routine, find_active_routine, free_routine_instance,
  stop_call, status_call,
}

-- The code of a timeout.
abbrev pub timeout_error : ℕ
timeout_error = 0xFF

module _ {W : Type 0} where
  -- The instance that is set up for a routine in the slot behind the active ones.
  abbrev pub started : RoutineManager W → RoutineDefinition W → ℕ → RoutineInstance
  started m routine now =
      let old = get_or m.active_routines m.active_count no_instance in
      record {
        routine_id = routine.routine_id;
        status = routine_status_running;
        timeout_timer =
            if ltb 0 routine.timeout_ms
            then record { start_time = now; timeout = routine.timeout_ms; running = true }
            else old.timeout_timer;
        last_result_code = 0;
      }

  -- The manager with a new instance.
  abbrev pub occupied : RoutineManager W → RoutineInstance → RoutineManager W
  occupied m x = record m {
    active_routines = set m.active_routines m.active_count x;
    active_count = m.active_count + 1;
  }

  -- The start of a routine, if it has a function for it.
  unfoldable pub start_call : Option (W → List ℕ → W × Bool) → W → List ℕ → W × Bool
  start_call none w bytes = (w, false)
  start_call (some f) w bytes = f w bytes

  -- The end of `Routine_Manager_StartRoutine`, for the instance at an index.
  unfoldable pub finish_start : RoutineManager W → ℕ → ℕ → W × Bool → RoutineManager W × W × Bool
  finish_start m i id (w, result) =
      if not result
      then (free_routine_instance m i, w, false)
      else (m, status_call m w id routine_status_running, true)

  -- `Routine_Manager_StopRoutine` after the searches.
  unfoldable pub stop_in :
      RoutineManager W
      → W
      → ℕ
      → Option (ℕ × RoutineDefinition W)
      → Option (ℕ × RoutineInstance)
      → RoutineManager W × W × Bool
  stop_in m w id none found = (m, w, false)
  stop_in m w id (some (j, routine)) none = (m, w, false)
  stop_in m w id (some (j, routine)) (some (i, x)) =
      let (w', result) = stop_call routine.stop_routine w in
      if not result then (m, w', false) else (
        free_routine_instance
            (record m {
              active_routines =
                  set m.active_routines i (record x { status = routine_status_stopped });
            })
            i,
        status_call m w' id routine_status_stopped,
        true,
      )

  -- `Routine_Manager_StopRoutine`
  unfoldable pub stop_routine : RoutineManager W → W → ℕ → RoutineManager W × W × Bool
  stop_routine m w id =
      if not m.initialized
      then (m, w, false)
      else stop_in m w id (find_routine m id) (find_active_routine m id)

  -- `get_result` of a routine, if it has one.
  unfoldable pub result_call :
      Option (W → RoutineResult → W × RoutineResult × Bool)
      → W
      → RoutineResult
      → W × RoutineResult × Bool
  result_call none w result = (w, result, false)
  result_call (some f) w result = f w result

  -- `Routine_Manager_GetResult`
  unfoldable pub get_result :
      RoutineManager W → W → ℕ → Option RoutineResult → W × Option RoutineResult × Bool
  get_result m w id none = (w, none, false)
  get_result m w id (some result) =
      if not m.initialized then (w, some result, false) else elim (find_routine m id) [
        | none ↦ (w, some result, false)
        | some (j, routine) ↦
            let (w', result', success) = result_call routine.get_result w result in
            elim (find_active_routine m id) [
              | none ↦ (w', some result', success)
              | some (i, x) ↦
                  (w', some (record result' { result_code = x.last_result_code }), success)
            ]
      ]

  -- `Routine_Manager_GetStatus`
  unfoldable pub get_status : RoutineManager W → ℕ → RoutineStatus
  get_status m id =
      if not m.initialized then routine_status_inactive else elim (find_active_routine m id) [
        | none ↦ routine_status_inactive
        | some (i, x) ↦ x.status
      ]

  -- `Routine_Manager_AddRoutine` after the search.
  unfoldable pub add_in :
      RoutineManager W
      → RoutineDefinition W
      → Option (ℕ × RoutineDefinition W)
      → RoutineManager W × Bool
  add_in m routine (some found) = (m, false)
  add_in m routine none = if leb max_routines m.routine_count then (m, false) else (
    record m {
      routines = set m.routines m.routine_count routine;
      routine_count = m.routine_count + 1;
    },
    true,
  )

  -- `Routine_Manager_AddRoutine`
  unfoldable pub add_routine :
      RoutineManager W → Option (RoutineDefinition W) → RoutineManager W × Bool
  add_routine m none = (m, false)
  add_routine m (some routine) =
      if not m.initialized then (m, false) else add_in m routine (find_routine m routine.routine_id)

  -- The stop of the instance in `Routine_Manager_RemoveRoutine`.
  unfoldable pub stop_removed :
      RoutineManager W
      → W
      → RoutineDefinition W
      → Option (ℕ × RoutineInstance)
      → RoutineManager W × W
  stop_removed m w routine none = (m, w)
  stop_removed m w routine (some (i, x)) =
      (free_routine_instance m i, (stop_call routine.stop_routine w).0)

  -- The removal of the routine at an index.
  abbrev pub removed : RoutineManager W → ℕ → RoutineManager W
  removed m j = record m {
    routines = shift_down m.routines m.routine_count j;
    routine_count = m.routine_count - 1;
  }

  -- `Routine_Manager_RemoveRoutine` after the search.
  unfoldable pub remove_in :
      RoutineManager W → W → ℕ → Option (ℕ × RoutineDefinition W) → RoutineManager W × W × Bool
  remove_in m w id none = (m, w, false)
  remove_in m w id (some (j, routine)) =
      let (m', w') = stop_removed m w routine (find_active_routine m id) in (removed m' j, w', true)

  -- `Routine_Manager_RemoveRoutine`
  unfoldable pub remove_routine : RoutineManager W → W → ℕ → RoutineManager W × W × Bool
  remove_routine m w id =
      if not m.initialized then (m, w, false) else remove_in m w id (find_routine m id)

  -- `Routine_Manager_GetRoutine`
  unfoldable pub get_routine : RoutineManager W → ℕ → Option (RoutineDefinition W)
  get_routine m id = if not m.initialized then none else entry_of (find_routine m id)

  -- `Routine_Manager_GetActiveCount`
  unfoldable pub get_active_count : RoutineManager W → ℕ
  get_active_count m = if not m.initialized then 0 else m.active_count

module _ {W : Type 0} (sessions : W → SessionManager) where
  -- `Routine_Manager_StartRoutine` after the searches.
  unfoldable pub start_in :
      RoutineManager W
      → W
      → List ℕ
      → ℕ
      → Option (ℕ × RoutineDefinition W)
      → Option (ℕ × RoutineInstance)
      → RoutineManager W × W × Bool
  start_in m w bytes now none found = (m, w, false)
  start_in m w bytes now (some (j, routine)) found =
      if ltb (get_state (sessions w)).security_level routine.security_level
      then (m, w, false)
      else if is_some found
      then (m, w, false)
      else if leb max_active_routines m.active_count
      then (m, w, false)
      else finish_start (occupied m (started m routine now)) m.active_count routine.routine_id
          (start_call routine.start_routine w bytes)

  -- `Routine_Manager_StartRoutine`
  unfoldable pub start_routine : RoutineManager W → W → ℕ → List ℕ → ℕ → RoutineManager W × W × Bool
  start_routine m w id bytes now =
      if not m.initialized
      then (m, w, false)
      else start_in m w bytes now (find_routine m id) (find_active_routine m id)
