-- ===== src/SessionFsm.antt =====
-- The session state machine of src/runtime/diagnostic/session/session_fsm.c and session_fsm.h.
-- The static `fsm_ctx` is a record that each function takes and returns. `now` is what
-- `Timer_GetMilliseconds` gives during one call. An event's data is the list of its bytes, empty
-- for NULL. The logger writes text only.
pub mod Calls
pub mod Trace
pub mod Timeouts
pub mod Slots
pub mod Reach
pub mod Ids
pub mod Valid
pub mod Table
pub mod Runs
pub mod Returns
pub mod Lock
mod Tests
use cant.Prelude.{
  ℕ, ◌+◌, Bool, true, false, not, ◌&&◌, Option, none, some, List, leb, ◌==◌, if◌then◌else◌,
  get_elem?,
}
use cant.Prelude.Words.{u8}

-- `SessionState`
pub data SessionState : Type 0 where
  default programming extended safety supplier eol : SessionState

-- `SessionEvent`; `out_of_range` is `SESSION_EVENT_COUNT` and every value above it.
pub data SessionEvent : Type 0 where
  timeout request response security_access security_denied error reset out_of_range : SessionEvent

-- `SessionContext`
pub record SessionContext : Type 0 where
  pub session_id : ℕ
  pub current_state : SessionState
  pub state_entry_time : ℕ
  pub last_activity_time : ℕ
  pub security_level : ℕ
  pub pending_did : ℕ
  pub pending_routine : ℕ
  pub routine_active : Bool
  pub error_counter : ℕ

-- `SessionFSMConfig`
pub record SessionFsmConfig : Type 0 where
  pub p2_timeout_ms : ℕ
  pub p2_star_timeout_ms : ℕ
  pub s3_timeout_ms : ℕ
  pub max_error_count : ℕ
  pub require_security_access : Bool
  pub allow_nested_response : Bool
  pub auto_session_cleanup : Bool

-- `SessionFSMContext`
pub record Fsm : Type 0 where
  pub sessions : List SessionContext
  pub config : SessionFsmConfig
  pub next_session_id : ℕ
  pub active_sessions : ℕ
  pub last_timeout_check : ℕ
  pub initialized : Bool

abbrev pub max_sessions : ℕ
max_sessions = 16

abbrev pub timeout_check_interval_ms : ℕ
timeout_check_interval_ms = 100

-- How a call ends: it returns, it reads through NULL or past the end of its data, or it waits for
-- ever for a lock that it holds itself.
pub data Outcome (A : Type 0) : Type 0 where
  done : A → Outcome A
  fault : Outcome A
  blocked : Outcome A

infixl 5 ◌>>=◌
abbrev pub ◌>>=◌ : {A B : Type 0} → Outcome A → (A → Outcome B) → Outcome B
done a >>= f = f a
fault >>= f = fault
blocked >>= f = blocked

abbrev pub byte_at : List ℕ → ℕ → Outcome ℕ
byte_at bytes i = elim (get_elem? bytes i) [ none ↦ fault | some b ↦ done b ]

-- A slot of zeroes.
abbrev pub cleared : SessionContext
cleared = record {
  session_id = 0;
  current_state = default;
  state_entry_time = 0;
  last_activity_time = 0;
  security_level = 0;
  pending_did = 0;
  pending_routine = 0;
  routine_active = false;
  error_counter = 0;
}

-- The handlers of the transition table.
pub data Handler : Type 0 where
  default_timeout default_request programming_security extended_request : Handler
  safety_error supplier_response eol_reset : Handler

-- `initialize_state_transitions`: the next state and the handler; `none` for a NULL handler.
unfoldable pub state_transitions : SessionState → SessionEvent → Option (SessionState × Handler)
state_transitions default timeout = some (default, default_timeout)
state_transitions default request = some (extended, default_request)
state_transitions programming security_access = some (programming, programming_security)
state_transitions extended request = some (extended, extended_request)
state_transitions safety error = some (default, safety_error)
state_transitions supplier response = some (supplier, supplier_response)
state_transitions eol reset = some (default, eol_reset)
state_transitions _ _ = none

-- `handle_default_timeout` and `handle_eol_reset`: all but the id, the state and the times.
abbrev pub reset_session : SessionContext → SessionContext
reset_session c = record c {
  security_level = 0;
  pending_did = 0;
  pending_routine = 0;
  routine_active = false;
  error_counter = 0;
}

-- `handle_default_request`
handle_default_request : ℕ → SessionContext → List ℕ → Outcome (SessionContext × Bool)
handle_default_request now c bytes = do
  b ← byte_at bytes 0
  done (if b == 0x10 then (record c { last_activity_time = now }, true) else (c, false))

-- `handle_programming_security`
handle_programming_security :
    SessionFsmConfig → SessionContext → List ℕ → Outcome (SessionContext × Bool)
handle_programming_security config c bytes =
    if leb config.max_error_count c.error_counter then done (c, false) else do
      b ← byte_at bytes 0
      if b == 0x27
          then byte_at bytes 1
            >>= (λ level. done (record c { security_level = level; error_counter = 0 }, true))
          else done (record c { error_counter = u8 (c.error_counter + 1) }, false)

-- `handle_extended_request`
handle_extended_request : SessionFsmConfig → ℕ → SessionContext → Outcome (SessionContext × Bool)
handle_extended_request config now c =
    if config.require_security_access && c.security_level == 0
    then done (c, false)
    else done (record c { last_activity_time = now }, true)

-- `handle_safety_error`; the error code goes to the log.
handle_safety_error : SessionFsmConfig → SessionContext → List ℕ → Outcome (SessionContext × Bool)
handle_safety_error config c bytes = do
  _ ← byte_at bytes 0
  let c' = record c { error_counter = u8 (c.error_counter + 1) }
  done (c', leb config.max_error_count c'.error_counter)

-- `handle_supplier_response`
handle_supplier_response : SessionFsmConfig → ℕ → SessionContext → Outcome (SessionContext × Bool)
handle_supplier_response config now c =
    if not config.allow_nested_response && not (c.pending_did == 0)
    then done (c, false)
    else done (record c { last_activity_time = now }, true)

-- The call through the handler pointer.
unfoldable pub handle :
    Handler → SessionFsmConfig → ℕ → SessionContext → List ℕ → Outcome (SessionContext × Bool)
unfolding handle_default_request handle_programming_security handle_extended_request
    handle_safety_error handle_supplier_response
handle default_timeout config now c bytes = done (reset_session c, true)
handle default_request config now c bytes = handle_default_request now c bytes
handle programming_security config now c bytes = handle_programming_security config c bytes
handle extended_request config now c bytes = handle_extended_request config now c
handle safety_error config now c bytes = handle_safety_error config c bytes
handle supplier_response config now c bytes = handle_supplier_response config now c
handle eol_reset config now c bytes = done (reset_session c, true)
