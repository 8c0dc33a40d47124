-- ===== src/SessionManager/Calls.antt =====
-- The functions of src/runtime/diagnostic/session_manager.c. `now` is the tick count. An index past
-- the end of the transition matrix gives `none`. A call under the lock is one step.
use cant.Prelude.{
  ℕ, Bool, true, false, not, ◌&&◌, ◌||◌, Option, none, some, List, [], ◌∷◌, ◌++◌, ltb, leb, ◌==◌,
  if◌then◌else◌, get_elem?,
}
use cant.Timer
use cant.Timer.{Timer}
use cant.SessionManager.{
  Callback, ServiceAccessEntry, SessionManager, SessionManagerConfig, SessionState, call_if,
  has_bit, security_change, service_access_matrix, session_change, session_default, timed_out,
}

-- `validate_session_transition`
unfoldable pub validate_session_transition : ℕ → ℕ → Option Bool
validate_session_transition current target =
    elim (get_elem? {A = ℕ} (0xFFFF ∷ 0xFFFF ∷ 0xFFFF ∷ 0xFFFF ∷ []) current) [
      | none ↦ none
      | some row ↦ some (has_bit row target)
    ]

-- `find_service_access`
unfoldable pub find_service_access : ℕ → List ServiceAccessEntry → Option ServiceAccessEntry
find_service_access id [] = none
find_service_access id (e ∷ es) =
    let rest = find_service_access id es in if e.service_id == id then some e else rest

-- The S3 timer is started anew where a timeout is configured.
abbrev pub restart_s3 : ℕ → SessionManager → SessionManager
restart_s3 now m =
    if ltb 0 m.config.s3_timeout_ms
    then record m {
      s3_timer = record { start_time = now; timeout = m.config.s3_timeout_ms; running = true };
    }
    else m

abbrev no_state : SessionState
no_state = record {
  active_session = 0;
  session_start_time = 0;
  last_activity_time = 0;
  security_level = 0;
  suppress_response = false;
  session_locked = false;
}

abbrev pub no_timer : Timer
no_timer = record { start_time = 0; timeout = 0; running = false }

-- `Session_Manager_Init`
unfoldable pub init : ℕ → SessionManager → Option SessionManagerConfig → SessionManager × Bool
init now m none = (m, false)
init now m (some config) = (
  restart_s3 now (record m {
    config = config;
    state = record {
      active_session = session_default;
      session_start_time = now;
      last_activity_time = now;
      security_level = 0;
      suppress_response = false;
      session_locked = false;
    };
    initialized = true;
  }),
  true,
)

-- `Session_Manager_DeInit`: `memset` to zero.
unfoldable pub deinit : SessionManager
deinit = record {
  config = record {
    default_p2_timeout_ms = 0;
    extended_p2_timeout_ms = 0;
    s3_timeout_ms = 0;
    enable_session_lock = false;
    session_change_callback = false;
    security_change_callback = false;
    timeout_callback = false;
  };
  state = no_state;
  p2_timer = no_timer;
  s3_timer = no_timer;
  initialized = false;
}

-- The state after a session change that is allowed, and the callbacks.
abbrev pub changed_session : ℕ → SessionManager → ℕ → SessionManager × List Callback
changed_session now m new_session = (
  restart_s3 now (record m {
    state = record m.state {
      active_session = new_session;
      session_start_time = now;
      last_activity_time = now;
      security_level = 0;
    };
  }),
  call_if m.config.session_change_callback (session_change m.state.active_session new_session)
      ++ call_if m.config.security_change_callback (security_change m.state.security_level 0),
)

-- What `Session_Manager_ChangeSession` does after the transition has been looked up.
unfoldable pub change_in :
    ℕ → SessionManager → ℕ → Option Bool → Option (SessionManager × List Callback × Bool)
change_in now m new_session none = none
change_in now m new_session (some false) = some (m, [], false)
change_in now m new_session (some true) =
    let (m', calls) = changed_session now m new_session in some (m', calls, true)

-- `Session_Manager_ChangeSession`
unfoldable pub change_session :
    ℕ → SessionManager → ℕ → Option (SessionManager × List Callback × Bool)
change_session now m new_session =
    if not m.initialized || m.state.session_locked
    then some (m, [], false)
    else change_in now m new_session
        (validate_session_transition m.state.active_session new_session)

-- `Session_Manager_UpdateSecurity`
unfoldable pub update_security : SessionManager → ℕ → SessionManager × List Callback × Bool
update_security m level = if not m.initialized || m.state.session_locked then (m, [], false) else (
  record m { state = record m.state { security_level = level } },
  call_if m.config.security_change_callback (security_change m.state.security_level level),
  true,
)

-- The S3 part of `Session_Manager_ProcessTimeout`.
unfoldable pub check_s3 : ℕ → SessionManager → SessionManager × List Callback
unfolding Timer.expired
check_s3 now m =
    if ltb 0 m.config.s3_timeout_ms
      && (Timer.expired (some m.s3_timer) now && not (m.state.active_session == session_default))
    then (
      record m { state = record m.state { active_session = session_default; security_level = 0 } },
      call_if m.config.session_change_callback
            (session_change m.state.active_session session_default)
          ++ call_if m.config.timeout_callback timed_out,
    )
    else (m, [])

-- `Session_Manager_ProcessTimeout`
unfoldable pub process_timeout : ℕ → SessionManager → SessionManager × List Callback
unfolding Timer.expired
process_timeout now m =
    let (m', calls) = check_s3 now m in
    if not m.initialized then (m, []) else (
      m',
      calls
          ++ (if Timer.expired (some m'.p2_timer) now
              then call_if m.config.timeout_callback timed_out
              else []),
    )

-- `Session_Manager_IsSessionAllowed`
unfoldable pub is_session_allowed : SessionManager → ℕ → Option Bool
is_session_allowed m session =
    if not m.initialized
    then some false
    else validate_session_transition m.state.active_session session

-- `Session_Manager_IsServiceAllowed`
unfoldable pub is_service_allowed : SessionManager → ℕ → Bool
is_service_allowed m service_id =
    if not m.initialized
    then false
    else elim (find_service_access service_id service_access_matrix) [
      | none ↦ false
      | some access ↦
          has_bit access.allowed_sessions m.state.active_session
          && leb access.required_security m.state.security_level
    ]

-- `Session_Manager_UpdateActivity`
unfoldable pub update_activity : ℕ → SessionManager → SessionManager
update_activity now m =
    if not m.initialized
    then m
    else restart_s3 now (record m { state = record m.state { last_activity_time = now } })

abbrev with_lock : Bool → SessionManager → SessionManager × Bool
with_lock locked m =
    if not m.initialized || not m.config.enable_session_lock
    then (m, false)
    else (record m { state = record m.state { session_locked = locked } }, true)

-- `Session_Manager_LockSession`
unfoldable pub lock_session : SessionManager → SessionManager × Bool
lock_session m = with_lock true m

-- `Session_Manager_UnlockSession`
unfoldable pub unlock_session : SessionManager → SessionManager × Bool
unlock_session m = with_lock false m

-- `Session_Manager_GetState`
unfoldable pub get_state : SessionManager → SessionState
get_state m = if m.initialized then m.state else no_state

-- `Session_Manager_GetP2Timeout`
unfoldable pub get_p2_timeout : SessionManager → ℕ
get_p2_timeout m =
    if not m.initialized
    then 0
    else if m.state.active_session == session_default
    then m.config.default_p2_timeout_ms
    else m.config.extended_p2_timeout_ms

-- `Session_Manager_GetS3Timeout`
unfoldable pub get_s3_timeout : SessionManager → ℕ
get_s3_timeout m = if not m.initialized then 0 else m.config.s3_timeout_ms

-- `Session_Manager_IsSuppressResponse`
unfoldable pub is_suppress_response : SessionManager → Bool
is_suppress_response m = if not m.initialized then false else m.state.suppress_response

-- `Session_Manager_SetSuppressResponse`
unfoldable pub set_suppress_response : SessionManager → Bool → SessionManager
set_suppress_response m suppress =
    if not m.initialized
    then m
    else record m { state = record m.state { suppress_response = suppress } }
