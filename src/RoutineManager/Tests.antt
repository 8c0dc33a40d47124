-- ===== src/RoutineManager/Tests.antt =====
-- The theorems on routines at concrete inputs.
use cant.Prelude.{ℕ, ◌+◌, ◌≡◌, refl, true, false, none, some, List, [], ◌∷◌, arith, replicate}
use cant.Prelude.Table.{lookup}
use cant.SessionManager.{SessionManager, session_default}
use cant.SessionManager.Calls
use cant.RoutineManager.{
  RoutineDefinition, RoutineInstance, RoutineManager, RoutineManagerConfig, routine_status_running,
  no_instance, known, active,
}
use cant.RoutineManager.Timeouts.{process_timeout, in_time}
use cant.RoutineManager.Timeouts.Left.{Leaves}
use cant.RoutineManager.Timeouts.Loops.{process_timeout-Leaves}
use cant.RoutineManager.Valid.{IsValid}
use cant.RoutineManager.Trace.{
  Call, call_start, call_stop, call_remove, call_process_timeout, call_abort_all, run_calls,
  run_calls-IsValid,
}

-- A state that is the session manager and a count of starts.
abbrev State : Type 0
State = SessionManager × ℕ

abbrev sessions : SessionManager
sessions = record Calls.deinit {
  state = record {
    active_session = session_default;
    session_start_time = 0;
    last_activity_time = 0;
    security_level = 1;
    suppress_response = false;
    session_locked = false;
  };
  initialized = true;
}

abbrev routine : ℕ → RoutineDefinition State
routine id = record {
  routine_id = id;
  security_level = 1;
  timeout_ms = 100;
  start_routine = some (λ w bytes. ((w.0, w.1 + 1), true));
  stop_routine = none;
  get_result = none;
  timeout_callback = none;
}

abbrev running : ℕ → ℕ → RoutineInstance
running id since = record no_instance {
  routine_id = id;
  status = routine_status_running;
  timeout_timer = record { start_time = since; timeout = 100; running = true };
}

abbrev config : RoutineManagerConfig State
config = record {
  routines = none;
  routine_count = 0;
  status_callback = none;
  error_callback = none;
}

abbrev manager : RoutineManager State
manager = record {
  config = config;
  routines = routine 1 ∷ routine 2 ∷ routine 3 ∷ replicate 29 (routine 0);
  active_routines = running 2 0 ∷ running 1 950 ∷ replicate 6 no_instance;
  routine_count = 3;
  active_count = 2;
  initialized = true;
}

manager-IsValid : IsValid manager
unfolding lookup
manager-IsValid = record {
  routines = record { sized = refl; bounded = omega arith; distinct = (refl, (refl, (refl, tt))) };
  instances = record { sized = refl; bounded = omega arith; distinct = (refl, (refl, tt)) };
  registered = (refl, (refl, tt));
}

abbrev calls : List (Call State)
calls =
    call_start 3 [] 1000
    ∷ call_process_timeout 1001
    ∷ call_remove 1
    ∷ call_stop 3
    ∷ call_abort_all
    ∷ []

run_calls-IsValid_example :
    (m' : RoutineManager State) × (w' : State) × (run_calls
        (λ (w : State). w.0)
        manager
        (sessions, 0)
        calls
      ≡ some (m', w'))
    × IsValid m'
run_calls-IsValid_example =
    run_calls-IsValid (λ (w : State). w.0) manager (sessions, 0) calls manager-IsValid

process_timeout-Leaves_example :
    Leaves manager
      (in_time 1000 (known manager) (active manager))
      (process_timeout 1000 manager (sessions, 0))
process_timeout-Leaves_example = process_timeout-Leaves 1000 manager (sessions, 0) (omega arith)
