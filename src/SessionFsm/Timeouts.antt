-- ===== src/SessionFsm/Timeouts.antt =====
-- What `Session_FSM_ProcessTimeouts` keeps, from what the calls that it makes keep.
use cant.Prelude.Words.{sub32}
use cant.Prelude.{
  if_intro, ltb, ◌&&◌, ◌||◌, ℕ, zero, suc, ◌+◌, Bool, true, false, not, Option, none, some, [],
  ◌==◌, get_elem?,
}
use cant.SessionFsm.{
  timeout, SessionContext, Fsm, Outcome, done, max_sessions, timeout_check_interval_ms,
}
use cant.SessionFsm.Calls.{
  destroy_session, handle_event, check_slot, check_slots, process_timeouts, nested, expire_slot,
  check_at, p2_of,
}
use cant.SessionFsm.Trace.{Returned, Returned->>=}

module _ (Q : Fsm → Type 0)
    (event_keeps : (now : ℕ) (f : Fsm) (id : ℕ)
      → Q f
      → Returned (λ r. Q (r.0)) (handle_event now f id timeout []))
    (destroy_keeps : (f : Fsm) (id : ℕ) → Q f → Q (destroy_session f id).0)
    (check_keeps : (now : ℕ) (f : Fsm) → Q f → Q (record f { last_timeout_check = now })) where
  nested-keeps :
      {A : Type 0} (R : A → Type 0) (recursive : Bool) (m : Outcome A)
      → Returned R m
      → Returned R (nested recursive m)
  nested-keeps R true m h = h
  nested-keeps R false m h = tt

  expire_slot-keeps :
      (recursive : Bool) (now : ℕ) (c : SessionContext) (f : Fsm)
      → Q f
      → Returned Q (expire_slot recursive now c f)
  unfolding expire_slot
  expire_slot-keeps recursive now c f h =
      Returned->>= (λ r. Q (r.0)) Q (nested recursive (handle_event now f c.session_id timeout []))
        _ (nested-keeps (λ r. Q (r.0)) recursive _ (event_keeps now f c.session_id h))
        λ r p.
          if_intro (Returned Q) f.config.auto_session_cleanup _ _
            (λ _.
              nested-keeps Q recursive (done (destroy_session (r.0) c.session_id).0)
                (destroy_keeps (r.0) c.session_id p))
            (λ _. p)

  check_slot-keeps :
      (recursive : Bool) (now : ℕ) (c : SessionContext) (f : Fsm)
      → Q f
      → Returned Q (check_slot recursive now c f)
  unfolding check_slot
  check_slot-keeps recursive now c f h =
      if_intro (Returned Q) (c.session_id == 0) _ _ (λ _. h)
        λ _.
          if_intro (Returned Q) (ltb f.config.s3_timeout_ms (sub32 now c.last_activity_time)) _ _
            (λ _. expire_slot-keeps recursive now c f h)
            λ _.
              if_intro (Returned Q)
                ((not (c.pending_did == 0) || not (c.pending_routine == 0))
                  && ltb (p2_of f.config c) (sub32 now c.state_entry_time))
                _ _
                (λ _.
                  Returned->>= (λ r. Q (r.0)) Q
                    (nested recursive (handle_event now f c.session_id timeout [])) _
                    (nested-keeps (λ r. Q (r.0)) recursive _ (event_keeps now f c.session_id h))
                    λ r p. p)
                (λ _. h)

  check_at-keeps :
      (recursive : Bool) (now : ℕ) (o : Option SessionContext) (f : Fsm)
      → Q f
      → Returned Q (check_at recursive now o f)
  unfolding check_at
  check_at-keeps recursive now none f h = h
  check_at-keeps recursive now (some c) f h = check_slot-keeps recursive now c f h

  check_slots-keeps :
      (recursive : Bool) (now i n : ℕ) (f : Fsm)
      → Q f
      → Returned Q (check_slots recursive now i n f)
  unfolding check_slots
  check_slots-keeps recursive now i zero f h = h
  check_slots-keeps recursive now i (suc n) f h =
      Returned->>= Q Q (check_at recursive now (get_elem? f.sessions i) f) _
        (check_at-keeps recursive now (get_elem? f.sessions i) f h)
        λ f' p. check_slots-keeps recursive now (i + 1) n f' p

  -- What a timeout event, a removal and the note of the time keep, the whole check keeps.
  pub process_timeouts-keeps :
      (recursive : Bool) (now : ℕ) (f : Fsm) → Q f → Returned Q (process_timeouts recursive now f)
  unfolding process_timeouts
  process_timeouts-keeps recursive now f h =
      if_intro (Returned Q) (not f.initialized) _ _ (λ _. h)
        λ _.
          if_intro (Returned Q) (ltb (sub32 now f.last_timeout_check) timeout_check_interval_ms) _ _
            (λ _. h)
            λ _.
              check_slots-keeps recursive now 0 max_sessions (record f { last_timeout_check = now })
                (check_keeps now f h)
