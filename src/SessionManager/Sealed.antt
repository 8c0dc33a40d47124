-- ===== src/SessionManager/Sealed.antt =====
-- The sessions and timers that sequences of calls on the session manager reach.
use cant.Prelude.{
  ℕ, ◌≤◌, ◌<◌, ◌≡◌, refl, Bool, true, false, none, some, List, [], ◌∷◌, inl, inr, ltb, arith, All,
  zero, suc, not, ◌||◌, Bool-cases, ◌↔◌, ◌≢◌,
}
use cant.SessionManager.{SessionManager, SessionManagerConfig, session_safety_system, has_bit}
use cant.SessionManager.Calls.{
  init, change_session, update_security, process_timeout, check_s3, update_activity, lock_session,
  unlock_session, set_suppress_response, validate_session_transition, changed_session, change_in,
  deinit,
}
use cant.SessionManager.Trace.{
  Call, change, security, tick, activity, lock, unlock, suppress, apply, run,
}

-- A call that is not a session change, or one to the default, programming or extended session.
abbrev pub IsCovered : ℕ × Call → Type 0
IsCovered (now, change target) = (0 < target) × (target < session_safety_system)
IsCovered _ = Unit

-- The sessions that the transition matrix has a row for; the P2 timer does not run.
pub record IsInside (m : SessionManager) : Type 0 where
  pub positive : 0 < m.state.active_session
  pub covered : m.state.active_session < session_safety_system
  pub no_p2 : m.p2_timer.running ≡ false

pub has_bit_low : (t : ℕ) → t < session_safety_system → has_bit 0xFFFF t ≡ true
has_bit_low zero h = refl
has_bit_low (suc zero) h = refl
has_bit_low (suc (suc zero)) h = refl
has_bit_low (suc (suc (suc zero))) h = refl
has_bit_low (suc (suc (suc (suc t)))) h = absurd (omega arith)

validate_row :
    (s t : ℕ)
    → s < session_safety_system
    → validate_session_transition s t ≡ some (has_bit 0xFFFF t)
unfolding validate_session_transition
validate_row zero t h = refl
validate_row (suc zero) t h = refl
validate_row (suc (suc zero)) t h = refl
validate_row (suc (suc (suc zero))) t h = refl
validate_row (suc (suc (suc (suc s)))) t h = absurd (omega arith)

validate_past : (s t : ℕ) → session_safety_system ≤ s → validate_session_transition s t ≡ none
unfolding validate_session_transition
validate_past zero t h = absurd (omega arith)
validate_past (suc zero) t h = absurd (omega arith)
validate_past (suc (suc zero)) t h = absurd (omega arith)
validate_past (suc (suc (suc zero))) t h = absurd (omega arith)
validate_past (suc (suc (suc (suc s)))) t h = refl

pub validate_lem :
    (s t : ℕ)
    → s < session_safety_system
    → t < session_safety_system
    → validate_session_transition s t ≡ some true
validate_lem s t h k = rw (validate_row s t h, has_bit_low t k) refl

change_in_returns :
    (now : ℕ) (m : SessionManager) (target : ℕ) (b : Bool) → change_in now m target (some b) ≢ none
unfolding change_in
change_in_returns now m target false e = cc
change_in_returns now m target true e = cc

changed-IsInside :
    (now : ℕ) (m : SessionManager) (target : ℕ)
    → 0 < target
    → target < session_safety_system
    → IsInside m
    → IsInside (changed_session now m target).0
changed-IsInside now m target p c v = ground arith

change_session-IsInside :
    (now : ℕ) (m : SessionManager) (target : ℕ)
    → 0 < target
    → target < session_safety_system
    → IsInside m
    → (r : SessionManager) × (apply now (change target) m ≡ some r) × IsInside r
unfolding apply change_session change_in
change_session-IsInside now m target p c v =
    elim (Bool-cases (not m.initialized || m.state.session_locked)) [
      | inl off ↦ rw (apply, off) (m, refl, v)
      | inr on ↦
          rw (apply, on, validate_lem m.state.active_session target v.covered c, change_in)
            ((changed_session now m target).0, refl, changed-IsInside now m target p c v)
    ]

apply-IsInside :
    (now : ℕ) (call : Call) (m : SessionManager)
    → IsCovered (now, call)
    → IsInside m
    → (r : SessionManager) × (apply now call m ≡ some r) × IsInside r
unfolding apply update_security process_timeout check_s3 update_activity lock_session unlock_session
    set_suppress_response
apply-IsInside now (change target) m c v = change_session-IsInside now m target c.0 c.1 v
apply-IsInside now (security level) m c v = (_, refl, ground arith)
apply-IsInside now tick m c v = (_, refl, ground arith)
apply-IsInside now activity m c v = (_, refl, ground arith)
apply-IsInside now lock m c v = (_, refl, ground arith)
apply-IsInside now unlock m c v = (_, refl, ground arith)
apply-IsInside now (suppress b) m c v = (_, refl, ground arith)

run-IsInside_from :
    (calls : List (ℕ × Call)) (m : SessionManager)
    → All IsCovered calls
    → IsInside m
    → (r : SessionManager) × (run calls m ≡ some r) × IsInside r
unfolding run
run-IsInside_from [] m h v = (m, refl, v)
run-IsInside_from ((now, call) ∷ calls) m h v =
    let (m', e, v') = apply-IsInside now call m h.0 v in
    let (r, e', w) = run-IsInside_from calls m' h.1 v' in (r, rw (run, e) e', w)

-- From `Session_Manager_Init` on a zeroed manager, calls at any times whose session changes ask only
-- for the default, the programming or the extended session all return; one of these three sessions
-- is then active, and the P2 timer does not run.
pub run-IsInside :
    (now : ℕ) (config : SessionManagerConfig) (calls : List (ℕ × Call))
    → All IsCovered calls
    → (r : SessionManager) × (run calls (init now deinit (some config)).0 ≡ some r) × IsInside r
run-IsInside now config calls h = run-IsInside_from calls _ h (unfold init deinit in ground arith)

-- A change of session with the lock open reads past the transition matrix exactly when the active
-- session is the safety system session or beyond.
pub change_session_past :
    (now : ℕ) (m : SessionManager) (target : ℕ)
    → m.initialized ≡ true
    → m.state.session_locked ≡ false
    → (change_session now m target ≡ none) ↔ (session_safety_system ≤ m.state.active_session)
unfolding change_session change_in
change_session_past now m target on free = (
  λ e. elim (Bool-cases (ltb m.state.active_session session_safety_system)) [
    | inl low ↦ absurd (
        change_in_returns now m target (has_bit 0xFFFF target)
          (cc (on, free, e, validate_row m.state.active_session target (ground arith))))
    | inr high ↦ ground arith
  ],
  λ h. cc (on, free, validate_past m.state.active_session target h),
)
