-- ===== src/RoutineManager.antt =====
-- The routines of src/runtime/diagnostic/routine_manager.c and routine_manager.h. The static
-- `routine_manager` is a record that each function takes and returns. `W` is the state that the
-- routines and the callbacks work on; it holds the session manager, which `sessions` reads. `now`
-- is the tick count, which stands still while interrupts are off. A call under the lock is one step.
pub mod Calls
pub mod Timeouts
pub mod Valid
pub mod Steps
pub mod Trace
mod Tests
use cant.Prelude.{
  ℕ, ◌+◌, ◌-◌, Bool, true, false, not, Option, none, some, List, [], ◌∷◌, ◌++◌, ltb, leb,
  if◌then◌else◌, take, drop, set, get_or, replicate,
}
use cant.Prelude.Table.{find_by, entry_of, shift_down}
use cant.Timer.{Timer}

-- `RoutineStatus`
pub data RoutineStatus : Type 0 where
  routine_status_inactive : RoutineStatus
  routine_status_running : RoutineStatus
  routine_status_completed : RoutineStatus
  routine_status_failed : RoutineStatus
  routine_status_stopped : RoutineStatus

-- `RoutineResult`; `bytes` is what `data` points to.
pub record RoutineResult : Type 0 where
  pub result_code : ℕ
  pub bytes : List ℕ
  pub length : ℕ

-- `RoutineDefinition`; `none` for a NULL function.
pub record RoutineDefinition (W : Type 0) : Type 0 where
  pub routine_id : ℕ
  pub security_level : ℕ
  pub timeout_ms : ℕ
  pub start_routine : Option (W → List ℕ → W × Bool)
  pub stop_routine : Option (W → W × Bool)
  pub get_result : Option (W → RoutineResult → W × RoutineResult × Bool)
  pub timeout_callback : Option (W → W)

-- `RoutineManagerConfig`
pub record RoutineManagerConfig (W : Type 0) : Type 0 where
  pub routines : Option (List (RoutineDefinition W))
  pub routine_count : ℕ
  pub status_callback : Option (W → ℕ → RoutineStatus → W)
  pub error_callback : Option (W → ℕ → ℕ → W)

-- `RoutineInstance`
pub record RoutineInstance : Type 0 where
  pub routine_id : ℕ
  pub status : RoutineStatus
  pub timeout_timer : Timer
  pub last_result_code : ℕ

-- `RoutineManager`, with its arrays of 32 and of 8.
pub record RoutineManager (W : Type 0) : Type 0 where
  pub config : RoutineManagerConfig W
  pub routines : List (RoutineDefinition W)
  pub active_routines : List RoutineInstance
  pub routine_count : ℕ
  pub active_count : ℕ
  pub initialized : Bool

abbrev pub max_routines : ℕ
max_routines = 32

abbrev pub max_active_routines : ℕ
max_active_routines = 8

-- An instance of zeroes.
abbrev pub no_instance : RoutineInstance
no_instance = record {
  routine_id = 0;
  status = routine_status_inactive;
  timeout_timer = record { start_time = 0; timeout = 0; running = false };
  last_result_code = 0;
}

-- The keys of the two tables.
abbrev pub id_of : {W : Type 0} → RoutineDefinition W → ℕ
id_of r = r.routine_id

abbrev pub instance_id : RoutineInstance → ℕ
instance_id i = i.routine_id

-- The entries in use, which the loops visit.
abbrev pub known : {W : Type 0} → RoutineManager W → List (RoutineDefinition W)
known m = take m.routine_count m.routines

abbrev pub active : {W : Type 0} → RoutineManager W → List RoutineInstance
active m = take m.active_count m.active_routines

-- `find_routine`, with the index.
abbrev pub find_routine : {W : Type 0} → RoutineManager W → ℕ → Option (ℕ × RoutineDefinition W)
find_routine m id = find_by id_of id (known m)

-- `find_active_routine`, with the index.
abbrev pub find_active_routine : {W : Type 0} → RoutineManager W → ℕ → Option (ℕ × RoutineInstance)
find_active_routine m id = find_by instance_id id (active m)

-- `free_routine_instance` of the instance at an index.
unfoldable pub free_routine_instance : {W : Type 0} → RoutineManager W → ℕ → RoutineManager W
free_routine_instance m i = if leb m.active_count i then m else record m {
  active_routines = shift_down m.active_routines m.active_count i;
  active_count = m.active_count - 1;
}

-- The routines that `Routine_Manager_Init` copies.
unfoldable pub copy_routines :
    {W : Type 0} → RoutineManager W → Option (List (RoutineDefinition W)) → ℕ → RoutineManager W
copy_routines m none n = record m { routine_count = 0 }
copy_routines m (some routines) n =
    let copy_count = if leb n max_routines then n else max_routines in
    if ltb 0 n
    then record m {
      routines = take copy_count routines ++ drop copy_count m.routines;
      routine_count = copy_count;
    }
    else record m { routine_count = 0 }

-- `Routine_Manager_Init`
unfoldable pub init :
    {W : Type 0} → RoutineManager W → Option (RoutineManagerConfig W) → RoutineManager W × Bool
init m none = (m, false)
init m (some config) = (
  record (copy_routines (record m { config = config }) config.routines config.routine_count) {
    active_count = 0;
    initialized = true;
  },
  true,
)

-- The call of a routine that stops, with its answer, which is true if there is none.
unfoldable pub stop_call : {W : Type 0} → Option (W → W × Bool) → W → W × Bool
stop_call none w = (w, true)
stop_call (some f) w = f w

-- The status callback, if there is one.
unfoldable pub status_call : {W : Type 0} → RoutineManager W → W → ℕ → RoutineStatus → W
status_call m w id status = elim (m.config.status_callback) [ none ↦ w | some f ↦ f w id status ]

-- The error callback, if there is one.
unfoldable pub error_call : {W : Type 0} → RoutineManager W → W → ℕ → ℕ → W
error_call m w id code = elim (m.config.error_callback) [ none ↦ w | some f ↦ f w id code ]

-- The loop of `Routine_Manager_DeInit` over the active routines.
unfoldable pub stop_all : {W : Type 0} → RoutineManager W → W → List RoutineInstance → W
stop_all m w [] = w
stop_all m w (x ∷ xs) = elim (find_routine m x.routine_id) [
  | none ↦ stop_all m w xs
  | some (i, routine) ↦ stop_all m (stop_call routine.stop_routine w).0 xs
]

-- `Routine_Manager_DeInit`: the active routines are stopped, then `memset` to zero.
unfoldable pub deinit : {W : Type 0} → RoutineManager W → W → RoutineManager W × W
deinit m w = (
  record {
    config = record {
      routines = none;
      routine_count = 0;
      status_callback = none;
      error_callback = none;
    };
    routines = replicate max_routines (record {
      routine_id = 0;
      security_level = 0;
      timeout_ms = 0;
      start_routine = none;
      stop_routine = none;
      get_result = none;
      timeout_callback = none;
    });
    active_routines = replicate max_active_routines no_instance;
    routine_count = 0;
    active_count = 0;
    initialized = false;
  },
  stop_all m w (active m),
)
