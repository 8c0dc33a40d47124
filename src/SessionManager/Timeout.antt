-- ===== src/SessionManager/Timeout.antt =====
-- The S3 timeout of the session manager.
use cant.Prelude.{ℕ, ◌+◌, ◌<◌, ◌^◌, ◌≡◌, ◌≢◌, true, false, [], ◌++◌, arith, leb, if◌then◌else◌}
use cant.Prelude.Words.{u32}
use cant.Timer
use cant.SessionManager.{SessionManager, session_default, call_if, session_change, timed_out}
use cant.SessionManager.Calls.{changed_session, update_security, process_timeout, check_s3}

-- `e` ms after a change to another session than the default one, with an S3 timeout configured, the
-- P2 timer not running and the session not locked, and whatever security level the session was given
-- meanwhile: before the timeout nothing happens; from then on the default session is active again,
-- its security level is 0, and the two callbacks are called.
pub timeout_after_change :
    (m : SessionManager) (begin target level e : ℕ)
    → m.initialized ≡ true
    → m.state.session_locked ≡ false
    → m.p2_timer.running ≡ false
    → 0 < m.config.s3_timeout_ms
    → target ≢ session_default
    → begin < 2 ^ 32
    → e < 2 ^ 32
    → let m' = (update_security (changed_session begin m target).0 level).0 in
      (m'.state.security_level ≡ level)
      × (process_timeout (u32 (begin + e)) m' ≡ (
          if leb m.config.s3_timeout_ms e
          then (
            record m' {
              state = record m'.state { active_session = session_default; security_level = 0 };
            },
            call_if m.config.session_change_callback (session_change target session_default)
                ++ call_if m.config.timeout_callback timed_out,
          )
          else (m', [])))
unfolding process_timeout check_s3 update_security Timer.expired
timeout_after_change m begin target level e on unlocked p2 s3 ne hb he =
    (ground arith, ground arith)
