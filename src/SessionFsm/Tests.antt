-- ===== src/SessionFsm/Tests.antt =====
-- Runs of the session state machine, and its theorems at concrete inputs.
use cant.Prelude.{
  none, ◌<◌, ◌≤◌, ◌⊎◌, ℕ, ◌+◌, ◌≡◌, refl, true, false, some, List, [], ◌∷◌, arith, if◌then◌else◌,
  All, replicate,
}
use cant.SessionFsm.{
  request, security_access, SessionFsmConfig, Fsm, blocked, cleared, max_sessions,
}
use cant.SessionFsm.Calls.{init, deinit, create_session, destroy_session, process_timeouts, opened}
use cant.SessionFsm.Trace.{Call, create, destroy, event, tick, run, Returned}
use cant.SessionFsm.Reach.{IsLocked, run-IsLocked}
use cant.SessionFsm.Ids.{Unused}
use cant.SessionFsm.Valid.{ids, IsValid}
use cant.SessionFsm.Table.{Taken, create_session_lem, destroy_session_lem, init-IsValid}
use cant.SessionFsm.Returns.{IsDone, FedCall, run-IsDone}
use cant.SessionFsm.Runs.{run-IsValid}
use cant.SessionFsm.Lock.{process_timeouts_pthread}

abbrev config : SessionFsmConfig
config = record {
  p2_timeout_ms = 50;
  p2_star_timeout_ms = 5000;
  s3_timeout_ms = 5000;
  max_error_count = 3;
  require_security_access = true;
  allow_nested_response = false;
  auto_session_cleanup = true;
}

-- Two sessions; the first asks for the extended state, then for a service and for security.
abbrev script : List (ℕ × Call)
script =
    (10, create)
    ∷ (20, create)
    ∷ (30, event 1 request (0x10 ∷ 3 ∷ []))
    ∷ (40, event 1 request (0x22 ∷ []))
    ∷ (50, event 1 security_access (0x27 ∷ 1 ∷ []))
    ∷ (60, destroy 2)
    ∷ (7000, tick)
    ∷ []

run-IsLocked_example :
    Returned (λ g. All IsLocked (g.sessions)) (run true script (init 0 deinit (some config)).0)
run-IsLocked_example = run-IsLocked true 0 deinit config script

run-IsValid_example : Returned IsValid (run true script (init 0 deinit (some config)).0)
run-IsValid_example = run-IsValid true 0 deinit config script (omega arith)

abbrev fed_script : List (ℕ × Call)
fed_script = (10, create) ∷ (30, event 1 request (0x10 ∷ 3 ∷ [])) ∷ (7000, tick) ∷ []

fed_script-FedCall : All FedCall fed_script
fed_script-FedCall = ground arith

-- The state after `Session_FSM_Init`.
abbrev fresh : Fsm
fresh = record {
  sessions = replicate max_sessions cleared;
  config = config;
  next_session_id = 1;
  active_sessions = 0;
  last_timeout_check = 0;
  initialized = true;
}

fresh-IsValid : IsValid fresh
unfolding init
fresh-IsValid = init-IsValid 0 deinit config

-- One session, active at 10 ms and then no more.
abbrev one : Fsm
one = record fresh {
  sessions = opened 1 10 cleared ∷ replicate 15 cleared;
  active_sessions = 1;
  next_session_id = 2;
}

one-IsValid : IsValid one
one-IsValid = record {
  slots = refl;
  counted = refl;
  distinct = ground arith;
  below = ground arith;
  next_pos = omega arith;
}

create_session_lem_example :
    let (g, id) = create_session 10 one in
    IsValid g
    × (((1 < max_sessions)
          × (id ≡ some 2)
          × (g.active_sessions ≡ 1 + 1)
          × Taken 10 one g
          × Unused 2 (ids one))
        ⊎ ((max_sessions ≤ 1) × (id ≡ none) × (g ≡ one)))
create_session_lem_example = create_session_lem 10 one one-IsValid refl (omega arith)

destroy_session_lem_example :
    let (g, removed) = destroy_session one 1 in
    IsValid g × Unused 1 (ids g) × (g.active_sessions + (if removed then 1 else 0) ≡ 1)
destroy_session_lem_example = destroy_session_lem one 1 one-IsValid refl (omega arith)

-- At 7000 ms its S3 time of 5000 ms is over.
process_timeouts_pthread_example : process_timeouts false 7000 one ≡ blocked
process_timeouts_pthread_example = process_timeouts_pthread 7000 one refl refl (omega arith)

run-IsDone_example : IsDone (run true fed_script fresh)
run-IsDone_example = run-IsDone fed_script fresh fed_script-FedCall
