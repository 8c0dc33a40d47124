-- ===== src/SessionManager/Trace.antt =====
-- Sequences of calls on the session manager; `none` where a call reads past the transition matrix.
use cant.Prelude.{ℕ, Bool, Option, none, some, List, [], ◌∷◌}
use cant.SessionManager.{SessionManager}
use cant.SessionManager.Calls.{
  change_session, update_security, process_timeout, update_activity, lock_session, unlock_session,
  set_suppress_response,
}

-- A call with its arguments.
pub data Call : Type 0 where
  change security : ℕ → Call
  tick activity lock unlock : Call
  suppress : Bool → Call

-- One call at the time `now`.
unfoldable pub apply : ℕ → Call → SessionManager → Option SessionManager
apply now (change target) m = elim (change_session now m target) [
  | none ↦ none
  | some (m', calls, done) ↦ some m'
]
apply now (security level) m = some (update_security m level).0
apply now tick m = some (process_timeout now m).0
apply now activity m = some (update_activity now m)
apply now lock m = some (lock_session m).0
apply now unlock m = some (unlock_session m).0
apply now (suppress b) m = some (set_suppress_response m b)

-- Calls in order, each with its time.
unfoldable pub run : List (ℕ × Call) → SessionManager → Option SessionManager
run [] m = some m
run ((now, call) ∷ calls) m = elim (apply now call m) [ none ↦ none | some m' ↦ run calls m' ]
