-- ===== src/SessionFsm/Calls.antt =====
-- The functions of src/runtime/diagnostic/session/session_fsm.c that other files call.
-- `recursive` says whether `enter_critical` may be called by the holder of the lock: it may be with
-- a Windows critical section, and not with the pthread mutex of os/critical.c, which is of the
-- default kind.
use cant.Prelude.{
  ℕ, zero, suc, ◌+◌, Bool, true, false, not, ◌&&◌, ◌||◌, Option, none, some, List, [], ◌∷◌, ltb,
  leb, ◌==◌, if◌then◌else◌, get_elem?, set, replicate,
}
use cant.Prelude.Words.{u32, sub32}
use cant.SessionFsm.{
  SessionEvent, timeout, out_of_range, SessionContext, SessionFsmConfig, Fsm, max_sessions,
  timeout_check_interval_ms, Outcome, done, blocked, ◌>>=◌, cleared, state_transitions, handle,
  default, SessionState, Handler,
}

-- `Session_FSM_Init`
unfoldable pub init : ℕ → Fsm → Option SessionFsmConfig → Fsm × Bool
init now f none = (f, false)
init now f (some config) = (
  record {
    sessions = replicate max_sessions cleared;
    config = config;
    next_session_id = 1;
    active_sessions = 0;
    last_timeout_check = now;
    initialized = true;
  },
  true,
)

abbrev pub no_config : SessionFsmConfig
no_config = record {
  p2_timeout_ms = 0;
  p2_star_timeout_ms = 0;
  s3_timeout_ms = 0;
  max_error_count = 0;
  require_security_access = false;
  allow_nested_response = false;
  auto_session_cleanup = false;
}

-- `Session_FSM_Deinit`
unfoldable pub deinit : Fsm
deinit = record {
  sessions = replicate max_sessions cleared;
  config = no_config;
  next_session_id = 0;
  active_sessions = 0;
  last_timeout_check = 0;
  initialized = false;
}

-- The search that the functions share: the first slot with an id, and its index.
unfoldable pub find_slot : ℕ → List SessionContext → Option (ℕ × SessionContext)
find_slot id [] = none
find_slot id (c ∷ cs) =
    let rest = find_slot id cs in
    if c.session_id == id
    then some (0, c)
    else elim rest [ none ↦ none | some (i, found) ↦ some (suc i, found) ]

-- A slot after `Session_FSM_CreateSession` has taken it; the clock does not advance between its two
-- readings.
abbrev pub opened : ℕ → ℕ → SessionContext → SessionContext
opened id now c = record c {
  session_id = id;
  current_state = default;
  state_entry_time = now;
  last_activity_time = now;
}

-- The slot that `Session_FSM_CreateSession` has found is taken.
unfoldable pub create_in : ℕ → Fsm → Option (ℕ × SessionContext) → Fsm × Option ℕ
create_in now f none = (f, none)
create_in now f (some (i, c)) = (
  record f {
    sessions = set f.sessions i (opened f.next_session_id now c);
    next_session_id = u32 (f.next_session_id + 1);
    active_sessions = u32 (f.active_sessions + 1);
  },
  some f.next_session_id,
)

-- `Session_FSM_CreateSession`; the id is what goes through the pointer.
unfoldable pub create_session : ℕ → Fsm → Fsm × Option ℕ
create_session now f =
    if not f.initialized
    then (f, none)
    else if leb max_sessions f.active_sessions
    then (f, none)
    else create_in now f (find_slot 0 f.sessions)

-- The slot that `Session_FSM_DestroySession` has found is zeroed.
unfoldable pub destroy_in : Fsm → Option (ℕ × SessionContext) → Fsm × Bool
destroy_in f none = (f, false)
destroy_in f (some (i, c)) = (
  record f { sessions = set f.sessions i cleared; active_sessions = sub32 f.active_sessions 1 },
  true,
)

-- `Session_FSM_DestroySession`
unfoldable pub destroy_session : Fsm → ℕ → Fsm × Bool
destroy_session f id =
    if not f.initialized || id == 0 then (f, false) else destroy_in f (find_slot id f.sessions)

abbrev pub is_out_of_range : SessionEvent → Bool
is_out_of_range out_of_range = true
is_out_of_range _ = false

-- The context after a handler has returned `r`: on success the session enters the next state.
abbrev pub entered : ℕ → SessionState → SessionContext × Bool → SessionContext × Bool
entered now next r =
    if r.1 then (record r.0 { current_state = next; state_entry_time = now }, true) else r

-- What a table entry makes of a session: its new context and the result.
unfoldable pub take_transition :
    SessionFsmConfig
    → ℕ
    → SessionContext
    → List ℕ
    → Option (SessionState × Handler)
    → Outcome (SessionContext × Bool)
take_transition config now c bytes none = done (c, false)
take_transition config now c bytes (some (next, handler)) =
    handle handler config now c bytes >>= (λ r. done (entered now next r))

-- The transition of one session on one event.
unfoldable pub step :
    SessionFsmConfig → ℕ → SessionContext → SessionEvent → List ℕ → Outcome (SessionContext × Bool)
step config now c event bytes =
    take_transition config now c bytes (state_transitions c.current_state event)

-- The slot that `Session_FSM_HandleEvent` has found makes its transition.
unfoldable pub handle_in :
    ℕ → Fsm → SessionEvent → List ℕ → Option (ℕ × SessionContext) → Outcome (Fsm × Bool)
handle_in now f event bytes none = done (f, false)
handle_in now f event bytes (some (i, c)) = step f.config now c event bytes >>= λ r.
    done (record f { sessions = set f.sessions i r.0 }, r.1)

-- `Session_FSM_HandleEvent`
unfoldable pub handle_event : ℕ → Fsm → ℕ → SessionEvent → List ℕ → Outcome (Fsm × Bool)
handle_event now f id event bytes =
    if not f.initialized || is_out_of_range event
    then done (f, false)
    else handle_in now f event bytes (find_slot id f.sessions)

-- A call that takes the lock again while it is held.
abbrev pub nested : {A : Type 0} → Bool → Outcome A → Outcome A
nested true m = m
nested false m = blocked

-- What `Session_FSM_ProcessTimeouts` does about a session whose S3 time is over.
unfoldable pub expire_slot : Bool → ℕ → SessionContext → Fsm → Outcome Fsm
expire_slot recursive now c f =
    nested recursive (handle_event now f c.session_id timeout []) >>= λ r.
    if f.config.auto_session_cleanup
    then nested recursive (done (destroy_session (r.0) c.session_id).0)
    else done (r.0)

-- The P2 time of a slot.
abbrev pub p2_of : SessionFsmConfig → SessionContext → ℕ
p2_of config c = if c.routine_active then config.p2_star_timeout_ms else config.p2_timeout_ms

-- The body of the loop of `Session_FSM_ProcessTimeouts` for the slot `c`.
unfoldable pub check_slot : Bool → ℕ → SessionContext → Fsm → Outcome Fsm
check_slot recursive now c f =
    if c.session_id == 0
    then done f
    else if ltb f.config.s3_timeout_ms (sub32 now c.last_activity_time)
    then expire_slot recursive now c f
    else if (not (c.pending_did == 0) || not (c.pending_routine == 0))
        && ltb (p2_of f.config c) (sub32 now c.state_entry_time)
    then nested recursive (handle_event now f c.session_id timeout []) >>= (λ r. done (r.0))
    else done f

-- The body for an index; the loop stays below `MAX_SESSIONS`.
unfoldable pub check_at : Bool → ℕ → Option SessionContext → Fsm → Outcome Fsm
check_at recursive now none f = done f
check_at recursive now (some c) f = check_slot recursive now c f

-- The loop, `n` slots from index `i` on.
unfoldable pub check_slots : Bool → ℕ → ℕ → ℕ → Fsm → Outcome Fsm
check_slots recursive now i zero f = done f
check_slots recursive now i (suc n) f =
    check_at recursive now (get_elem? f.sessions i) f
    >>= (λ f'. check_slots recursive now (i + 1) n f')

-- `Session_FSM_ProcessTimeouts`
unfoldable pub process_timeouts : Bool → ℕ → Fsm → Outcome Fsm
process_timeouts recursive now f =
    if not f.initialized
    then done f
    else if ltb (sub32 now f.last_timeout_check) timeout_check_interval_ms
    then done f
    else check_slots recursive now 0 max_sessions (record f { last_timeout_check = now })

-- The slot that `Session_FSM_UpdateActivity` has found is stamped.
unfoldable pub touch_in : ℕ → Fsm → Option (ℕ × SessionContext) → Fsm × Bool
touch_in now f none = (f, false)
touch_in now f (some (i, c)) =
    (record f { sessions = set f.sessions i (record c { last_activity_time = now }) }, true)

-- `Session_FSM_UpdateActivity`
unfoldable pub update_activity : ℕ → Fsm → ℕ → Fsm × Bool
update_activity now f id =
    if not f.initialized then (f, false) else touch_in now f (find_slot id f.sessions)

-- `Session_FSM_GetActiveSessionCount`
unfoldable pub get_active_session_count : Fsm → ℕ
get_active_session_count f = f.active_sessions
