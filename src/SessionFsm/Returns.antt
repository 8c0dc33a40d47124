-- ===== src/SessionFsm/Returns.antt =====
-- The calls on the session state machine return, where the lock may be taken again by its holder.
use cant.Prelude.{
  ℕ, zero, suc, ◌+◌, ◌≤◌, true, Option, none, some, List, [], ◌∷◌, length, arith, if_intro, All,
  get_elem?, leb, ◌==◌, ◌&&◌, ◌||◌, not, ltb,
}
use cant.Prelude.Words.{sub32}
use cant.SessionFsm.{
  max_sessions, timeout_check_interval_ms, SessionState, SessionEvent, request, response,
  security_access, security_denied, error, reset, out_of_range, SessionContext, SessionFsmConfig,
  Fsm, Outcome, done, ◌>>=◌, Handler, handle, handle_default_request, handle_programming_security,
  handle_extended_request, handle_safety_error, handle_supplier_response, state_transitions,
  default, programming, extended, safety, supplier, eol, timeout, default_timeout, default_request,
  programming_security, extended_request, safety_error, supplier_response, eol_reset,
}
use cant.SessionFsm.Calls.{
  find_slot, take_transition, step, handle_in, handle_event, expire_slot, check_slot, check_at,
  check_slots, process_timeouts, is_out_of_range, p2_of, destroy_session,
}
use cant.SessionFsm.Trace.{Call, create, destroy, event, tick, activity, apply, run}

-- The call returns.
pub data IsDone {A : Type 0} : Outcome A → Type 0 where
  returned : (a : A) → IsDone (done a)

bind-IsDone :
    {A B : Type 0} (m : Outcome A) (g : A → Outcome B)
    → IsDone m
    → ((a : A) → IsDone (g a))
    → IsDone (m >>= g)
bind-IsDone m g (returned a) k = k a

handle-IsDone :
    (h : Handler) (config : SessionFsmConfig) (now : ℕ) (c : SessionContext) (bytes : List ℕ)
    → 2 ≤ length bytes
    → IsDone (handle h config now c bytes)
unfolding handle handle_default_request handle_programming_security handle_extended_request
    handle_safety_error handle_supplier_response
handle-IsDone h config now c [] k = absurd (omega arith)
handle-IsDone h config now c (x ∷ []) k = absurd (omega arith)
handle-IsDone default_timeout config now c (x ∷ y ∷ bytes) k = returned _
handle-IsDone default_request config now c (x ∷ y ∷ bytes) k = returned _
handle-IsDone programming_security config now c (x ∷ y ∷ bytes) k =
    if_intro IsDone (leb config.max_error_count c.error_counter) _ _ (λ e. returned _)
      (λ e. if_intro IsDone (x == 0x27) _ _ (λ e. returned _) (λ e. returned _))
handle-IsDone extended_request config now c (x ∷ y ∷ bytes) k =
    if_intro IsDone (config.require_security_access && c.security_level == 0) _ _ (λ e. returned _)
      (λ e. returned _)
handle-IsDone safety_error config now c (x ∷ y ∷ bytes) k = returned _
handle-IsDone supplier_response config now c (x ∷ y ∷ bytes) k =
    if_intro IsDone (not config.allow_nested_response && not (c.pending_did == 0)) _ _
      (λ e. returned _) (λ e. returned _)
handle-IsDone eol_reset config now c (x ∷ y ∷ bytes) k = returned _

-- What an event may find in its data: two bytes, or anything if it is a timeout.
abbrev pub IsFed : SessionEvent → List ℕ → Type 0
IsFed timeout bytes = Unit
IsFed e bytes = 2 ≤ length bytes

take-IsDone :
    (config : SessionFsmConfig) (now : ℕ) (c : SessionContext) (bytes : List ℕ)
    (o : Option (SessionState × Handler))
    → 2 ≤ length bytes
    → IsDone (take_transition config now c bytes o)
unfolding take_transition
take-IsDone config now c bytes none k = returned _
take-IsDone config now c bytes (some (next, h)) k =
    bind-IsDone _ _ (handle-IsDone h config now c bytes k) (λ r. returned _)

timed-IsDone :
    (config : SessionFsmConfig) (now : ℕ) (c : SessionContext) (bytes : List ℕ) (s : SessionState)
    → IsDone (take_transition config now c bytes (state_transitions s timeout))
unfolding take_transition state_transitions handle
timed-IsDone config now c bytes default = returned _
timed-IsDone config now c bytes programming = returned _
timed-IsDone config now c bytes extended = returned _
timed-IsDone config now c bytes safety = returned _
timed-IsDone config now c bytes supplier = returned _
timed-IsDone config now c bytes eol = returned _

step-IsDone :
    (config : SessionFsmConfig) (now : ℕ) (c : SessionContext) (e : SessionEvent) (bytes : List ℕ)
    → IsFed e bytes
    → IsDone (step config now c e bytes)
unfolding step
step-IsDone config now c timeout bytes k = timed-IsDone config now c bytes c.current_state
step-IsDone config now c request bytes k = take-IsDone config now c bytes _ k
step-IsDone config now c response bytes k = take-IsDone config now c bytes _ k
step-IsDone config now c security_access bytes k = take-IsDone config now c bytes _ k
step-IsDone config now c security_denied bytes k = take-IsDone config now c bytes _ k
step-IsDone config now c error bytes k = take-IsDone config now c bytes _ k
step-IsDone config now c reset bytes k = take-IsDone config now c bytes _ k
step-IsDone config now c out_of_range bytes k = take-IsDone config now c bytes _ k

handle_in-IsDone :
    (now : ℕ) (f : Fsm) (e : SessionEvent) (bytes : List ℕ) (o : Option (ℕ × SessionContext))
    → IsFed e bytes
    → IsDone (handle_in now f e bytes o)
unfolding handle_in
handle_in-IsDone now f e bytes none k = returned _
handle_in-IsDone now f e bytes (some (i, c)) k =
    bind-IsDone _ _ (step-IsDone f.config now c e bytes k) (λ r. returned _)

handle_event-IsDone :
    (now : ℕ) (f : Fsm) (id : ℕ) (e : SessionEvent) (bytes : List ℕ)
    → IsFed e bytes
    → IsDone (handle_event now f id e bytes)
unfolding handle_event
handle_event-IsDone now f id e bytes k =
    if_intro IsDone (not f.initialized || is_out_of_range e) _ _ (λ h. returned _)
      (λ h. handle_in-IsDone now f e bytes (find_slot id f.sessions) k)

expire_slot-IsDone : (now : ℕ) (c : SessionContext) (f : Fsm) → IsDone (expire_slot true now c f)
unfolding expire_slot
expire_slot-IsDone now c f =
    bind-IsDone (handle_event now f c.session_id timeout []) _
      (handle_event-IsDone now f c.session_id timeout [] tt)
      (λ r.
        if_intro IsDone (f.config.auto_session_cleanup)
          (done (destroy_session (r.0) c.session_id).0) (done (r.0)) (λ h. returned _)
          (λ h. returned _))

check_slot-IsDone : (now : ℕ) (c : SessionContext) (f : Fsm) → IsDone (check_slot true now c f)
unfolding check_slot
check_slot-IsDone now c f =
    if_intro IsDone (c.session_id == 0) _ _ (λ h. returned _)
      (λ h.
        if_intro IsDone (ltb f.config.s3_timeout_ms (sub32 now c.last_activity_time)) _ _
          (λ h. expire_slot-IsDone now c f)
          (λ h.
            if_intro IsDone
              ((not (c.pending_did == 0) || not (c.pending_routine == 0))
                && ltb (p2_of f.config c) (sub32 now c.state_entry_time))
              _ _
              (λ h.
                bind-IsDone (handle_event now f c.session_id timeout []) _
                  (handle_event-IsDone now f c.session_id timeout [] tt) (λ r. returned _))
              (λ h. returned _)))

check_at-IsDone : (now : ℕ) (o : Option SessionContext) (f : Fsm) → IsDone (check_at true now o f)
unfolding check_at
check_at-IsDone now none f = returned _
check_at-IsDone now (some c) f = check_slot-IsDone now c f

check_slots-IsDone : (now i n : ℕ) (f : Fsm) → IsDone (check_slots true now i n f)
unfolding check_slots
check_slots-IsDone now i zero f = returned _
check_slots-IsDone now i (suc n) f =
    bind-IsDone _ _ (check_at-IsDone now (get_elem? f.sessions i) f)
      (λ g. check_slots-IsDone now (i + 1) n g)

-- Every event of the sequence but a timeout comes with at least two bytes.
abbrev pub FedCall : ℕ × Call → Type 0
FedCall (now, event id e bytes) = IsFed e bytes
FedCall _ = Unit

apply-IsDone :
    (now : ℕ) (call : Call) (f : Fsm) → FedCall (now, call) → IsDone (apply true now call f)
unfolding apply process_timeouts
apply-IsDone now create f k = returned _
apply-IsDone now (destroy id) f k = returned _
apply-IsDone now (event id e bytes) f k =
    bind-IsDone _ _ (handle_event-IsDone now f id e bytes k) (λ r. returned _)
apply-IsDone now tick f k =
    if_intro IsDone (not f.initialized) _ _ (λ h. returned _)
      (λ h.
        if_intro IsDone (ltb (sub32 now f.last_timeout_check) timeout_check_interval_ms) _ _
          (λ h. returned _)
          (λ h. check_slots-IsDone now 0 max_sessions (record f { last_timeout_check = now })))
apply-IsDone now (activity id) f k = returned _

-- With a lock that its holder may take again every sequence of calls returns from any state, where
-- the events other than timeouts come with at least two bytes of data.
pub run-IsDone : (calls : List (ℕ × Call)) (f : Fsm) → All FedCall calls → IsDone (run true calls f)
unfolding run
run-IsDone [] f h = returned _
run-IsDone ((now, call) ∷ calls) f h =
    bind-IsDone _ _ (apply-IsDone now call f h.0) (λ g. run-IsDone calls g h.1)
