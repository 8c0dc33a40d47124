-- ===== src/SessionManager.antt =====
-- The data of the UDS session manager of src/runtime/diagnostic/session_manager.c and
-- session_manager.h. The static `session_manager` is a record that each function of Calls takes and
-- returns. A callback is set or not; the calls that a function makes through the callbacks are
-- listed in its result, in their order. The enumerations of uds_handler.h are their values.
pub mod Calls
pub mod Access
pub mod Timeout
pub mod Trace
pub mod Sealed
pub mod Held
mod Tests
use cant.Prelude.{ℕ, ◌/◌, ◌%◌, ◌^◌, Bool, List, [], ◌∷◌, ◌==◌, if◌then◌else◌}
use cant.Timer.{Timer}

-- `UdsSessionType`
abbrev pub session_default : ℕ
session_default = 1

abbrev pub session_programming : ℕ
session_programming = 2

abbrev pub session_extended_diagnostic : ℕ
session_extended_diagnostic = 3

abbrev pub session_safety_system : ℕ
session_safety_system = 4

-- `ServiceAccessEntry`
pub record ServiceAccessEntry : Type 0 where
  pub service_id : ℕ
  pub allowed_sessions : ℕ
  pub required_security : ℕ

abbrev entry : ℕ → ℕ → ℕ → ServiceAccessEntry
entry id sessions security = record {
  service_id = id;
  allowed_sessions = sessions;
  required_security = security;
}

-- `service_access_matrix`
abbrev pub service_access_matrix : List ServiceAccessEntry
service_access_matrix =
    entry 0x10 0xFFFF 0
    ∷ entry 0x11 0xFFFE 1
    ∷ entry 0x27 0xFFFE 0
    ∷ entry 0x28 0x000C 1
    ∷ entry 0x3E 0xFFFF 0
    ∷ entry 0x83 0x000C 1
    ∷ entry 0x84 0x000C 1
    ∷ entry 0x85 0x000C 1
    ∷ entry 0x86 0x000C 1
    ∷ entry 0x87 0x000C 1
    ∷ entry 0x22 0xFFFF 0
    ∷ entry 0x23 0x000C 1
    ∷ entry 0x24 0xFFFF 0
    ∷ entry 0x2A 0xFFFF 0
    ∷ entry 0x2E 0x000C 1
    ∷ entry 0x3D 0x000C 1
    ∷ entry 0x14 0x000C 1
    ∷ entry 0x19 0xFFFF 0
    ∷ entry 0x2F 0x000C 1
    ∷ entry 0x31 0x000C 1
    ∷ entry 0x34 0x0002 2
    ∷ entry 0x35 0x0002 2
    ∷ entry 0x36 0x0002 2
    ∷ entry 0x37 0x0002 2
    ∷ []

-- `SessionState`
pub record SessionState : Type 0 where
  pub active_session : ℕ
  pub session_start_time : ℕ
  pub last_activity_time : ℕ
  pub security_level : ℕ
  pub suppress_response : Bool
  pub session_locked : Bool

-- `SessionManagerConfig`; a callback field says whether the pointer is set.
pub record SessionManagerConfig : Type 0 where
  pub default_p2_timeout_ms : ℕ
  pub extended_p2_timeout_ms : ℕ
  pub s3_timeout_ms : ℕ
  pub enable_session_lock : Bool
  pub session_change_callback : Bool
  pub security_change_callback : Bool
  pub timeout_callback : Bool

-- `SessionManager`
pub record SessionManager : Type 0 where
  pub config : SessionManagerConfig
  pub state : SessionState
  pub p2_timer : Timer
  pub s3_timer : Timer
  pub initialized : Bool

-- A call through a callback, with its arguments.
pub data Callback : Type 0 where
  session_change security_change : ℕ → ℕ → Callback
  timed_out : Callback

-- The call is made if the callback is set.
abbrev pub call_if : Bool → Callback → List Callback
call_if set c = if set then c ∷ [] else []

-- (mask & (1 << i)) != 0
abbrev pub has_bit : ℕ → ℕ → Bool
has_bit mask i = mask / 2 ^ i % 2 == 1
