-- ===== src/SessionManager/Held.antt =====
-- The lock of the session manager through sequences of calls.
use cant.Prelude.{
  ℕ, ◌≡◌, refl, Bool, true, false, not, none, some, List, [], ◌∷◌, ◌&&◌, ◌||◌, ◌==◌, ltb,
  if◌then◌else◌, arith, All,
}
use cant.Timer
use cant.SessionManager.{SessionManager, session_default}
use cant.SessionManager.Calls.{
  change_session, update_security, process_timeout, check_s3, update_activity, lock_session,
  set_suppress_response,
}
use cant.SessionManager.Trace.{
  Call, change, security, tick, activity, lock, unlock, suppress, apply, run,
}

-- A call that leaves the lock as it is.
abbrev pub KeepsLock : ℕ × Call → Type 0
KeepsLock (now, unlock) = ⊥
KeepsLock _ = Unit

-- The S3 timeout: the manager is set up, a timeout is configured, the timer has expired, and
-- another session than the default one is active.
abbrev pub s3_due : ℕ → SessionManager → Bool
s3_due now s =
    s.initialized
    && (ltb 0 s.config.s3_timeout_ms
        && (Timer.expired (some s.s3_timer) now && not (s.state.active_session == session_default)))

-- Whether a call is a timeout check that finds the S3 timeout.
abbrev pub is_due : ℕ → Call → SessionManager → Bool
is_due now tick s = s3_due now s
is_due now _ s = false

-- Whether a timeout check of the sequence finds the S3 timeout.
unfoldable pub timed_out_in : List (ℕ × Call) → SessionManager → Bool
timed_out_in [] s = false
timed_out_in ((now, call) ∷ calls) s =
    let next = apply now call s in
    is_due now call s || elim next [ none ↦ false | some s' ↦ timed_out_in calls s' ]

-- `r` is locked, and its session and security level are those of `m`, or where `fell` the default
-- session and level 0.
pub record IsHeld (m : SessionManager) (fell : Bool) (r : SessionManager) : Type 0 where
  pub locked : r.state.session_locked ≡ true
  pub session : r.state.active_session ≡ (if fell then session_default else m.state.active_session)
  pub level : r.state.security_level ≡ (if fell then 0 else m.state.security_level)

apply-IsHeld :
    (now : ℕ) (call : Call) (m : SessionManager)
    → KeepsLock (now, call)
    → m.state.session_locked ≡ true
    → (s : SessionManager) × (apply now call m ≡ some s) × IsHeld m (is_due now call m) s
unfolding apply change_session update_security process_timeout check_s3 update_activity lock_session
    set_suppress_response Timer.expired
apply-IsHeld now (change target) m c v =
    (m, ground arith, record { locked = v; session = refl; level = refl })
apply-IsHeld now (security level) m c v = (_, refl, ground arith)
apply-IsHeld now tick m c v = (_, refl, ground arith)
apply-IsHeld now activity m c v = (_, refl, ground arith)
apply-IsHeld now lock m c v = (_, refl, ground arith)
apply-IsHeld now unlock m c v = elim c [ ]
apply-IsHeld now (suppress b) m c v = (_, refl, ground arith)

-- While the session is locked, session changes, security updates, timeout checks, activity, further
-- lockings and suppressions all return and keep the lock. They keep the active session and the
-- security level unless one of the timeout checks finds that the S3 timer has expired: then the
-- default session with level 0 is what is left.
pub run-IsHeld :
    (calls : List (ℕ × Call)) (m : SessionManager)
    → All KeepsLock calls
    → m.state.session_locked ≡ true
    → (r : SessionManager) × (run calls m ≡ some r) × IsHeld m (timed_out_in calls m) r
unfolding run timed_out_in
run-IsHeld [] m h v = (m, refl, record { locked = v; session = refl; level = refl })
run-IsHeld ((now, call) ∷ calls) m h v =
    let (s, e, u) = apply-IsHeld now call m h.0 v in
    let (r, e', w) = run-IsHeld calls s h.1 u.locked in
    (
      r,
      rw (run, e) e',
      rw (timed_out_in, e)
          record {
            locked = w.locked;
            session = ground (arith, u.session, w.session);
            level = ground (arith, u.level, w.level);
          },
    )
