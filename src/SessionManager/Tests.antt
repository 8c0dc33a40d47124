-- ===== src/SessionManager/Tests.antt =====
-- Runs of the session manager, and its theorems at concrete inputs.
use cant.Prelude.{
  ℕ, All, Bool, ◌+◌, ◌≤◌, ◌≡◌, ◌↔◌, refl, true, false, none, some, List, [], ◌∷◌, ◌++◌, arith, leb,
  if◌then◌else◌,
}
use cant.Prelude.Words.{u32}
use cant.Timer
use cant.SessionManager.{
  SessionManager, SessionManagerConfig, session_default, session_programming,
  session_extended_diagnostic, session_safety_system, call_if, session_change, timed_out,
}
use cant.SessionManager.Calls.{
  init, deinit, change_session, changed_session, process_timeout, is_service_allowed,
  update_security, check_s3, lock_session,
}
use cant.SessionManager.Access.{permitted, is_service_allowed_lem}
use cant.SessionManager.Timeout.{timeout_after_change}
use cant.SessionManager.Trace.{Call, change, security, tick, lock, apply, run}
use cant.SessionManager.Sealed.{IsCovered, IsInside, run-IsInside, change_session_past}
use cant.SessionManager.Held.{KeepsLock, IsHeld, timed_out_in, run-IsHeld}

abbrev config : SessionManagerConfig
config = record {
  default_p2_timeout_ms = 50;
  extended_p2_timeout_ms = 5000;
  s3_timeout_ms = 1000;
  enable_session_lock = true;
  session_change_callback = true;
  security_change_callback = true;
  timeout_callback = true;
}

-- In the given session, at level 2, with the lock open or not.
abbrev at_session : ℕ → Bool → SessionManager
at_session s locked = record deinit {
  config = config;
  state = record {
    active_session = s;
    session_start_time = 0;
    last_activity_time = 0;
    security_level = 2;
    suppress_response = false;
    session_locked = locked;
  };
  initialized = true;
}

abbrev script : List (ℕ × Call)
script =
    (10, change session_programming)
    ∷ (20, security 2)
    ∷ (30, lock)
    ∷ (40, change session_extended_diagnostic)
    ∷ (900, tick)
    ∷ (1010, tick)
    ∷ []

script-IsCovered : All IsCovered script
script-IsCovered = ground arith

script-KeepsLock : All KeepsLock script
script-KeepsLock = ground arith

is_service_allowed_lem_example :
    is_service_allowed (at_session session_programming false) 0x31
    ≡ permitted session_programming 2 0x31
is_service_allowed_lem_example =
    is_service_allowed_lem (at_session session_programming false) 0x31 refl (omega arith)
      (omega arith)

timeout_after_change_example :
    let m =
      (update_security
        (changed_session 4294967000 (at_session session_default false) session_programming).0
        3).0 in
    (m.state.security_level ≡ 3)
    × (process_timeout (u32 (4294967000 + 1500)) m ≡ (
        if leb 1000 1500
        then (
          record m {
            state = record m.state { active_session = session_default; security_level = 0 };
          },
          call_if true (session_change session_programming session_default)
              ++ call_if true timed_out,
        )
        else (m, [])))
unfolding deinit
timeout_after_change_example =
    timeout_after_change (at_session session_default false) 4294967000 session_programming 3 1500
      refl refl refl (omega arith) (λ e. omega arith) (omega arith) (omega arith)

run-IsInside_example :
    (r : SessionManager) × (run script (init 0 deinit (some config)).0 ≡ some r) × IsInside r
run-IsInside_example = run-IsInside 0 config script script-IsCovered

change_session_past_example :
    (change_session 5 (at_session session_safety_system false) session_default ≡ none)
    ↔ (session_safety_system ≤ session_safety_system)
change_session_past_example =
    change_session_past 5 (at_session session_safety_system false) session_default refl refl

-- A locked programming session whose S3 timer runs since the time 0.
abbrev held : SessionManager
held = record (at_session session_programming true) {
  s3_timer = record { start_time = 0; timeout = 1000; running = true };
}

-- The S3 timeout comes with the second timeout check of the script.
held-times_out : timed_out_in script held ≡ true
unfolding timed_out_in apply change_session update_security lock_session process_timeout check_s3
    Timer.expired
held-times_out = refl

run-IsHeld_example :
    (r : SessionManager) × (run script held ≡ some r) × IsHeld held (timed_out_in script held) r
run-IsHeld_example = run-IsHeld script held script-KeepsLock refl
