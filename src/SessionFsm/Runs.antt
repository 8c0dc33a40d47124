-- ===== src/SessionFsm/Runs.antt =====
-- Whole sequences of calls keep the table of sessions consistent.
use cant.Prelude.{
  ℕ, ◌+◌, ◌-◌, ◌^◌, ◌≤◌, ◌<◌, ◌≢◌, refl, Bool, not, ◌||◌, Option, none, some, List, [], ◌∷◌, arith,
  leb, ◌==◌, length, if_intro,
}
use cant.SessionFsm.{SessionEvent, timeout, SessionContext, SessionFsmConfig, Fsm, max_sessions}
use cant.SessionFsm.Calls.{
  init, create_in, create_session, destroy_in, destroy_session, find_slot, handle_event,
  process_timeouts,
}
use cant.SessionFsm.Slots.{find_slot-Found}
use cant.SessionFsm.Valid.{
  IsValid, SameIds, IsValid-SameIds, handle_event-SameIds, update_activity-SameIds,
}
use cant.SessionFsm.Table.{init-IsValid, create_in-IsValid, destroy_in-IsValid}
use cant.SessionFsm.Timeouts.{process_timeouts-keeps}
use cant.SessionFsm.Trace.{
  Call, create, destroy, event, tick, activity, apply, run, Returned, Returned->>=, Returned-map,
}

-- A valid table that has given out ids below `n` at most.
record ValidBelow (n : ℕ) (f : Fsm) : Type 0 where
  valid : IsValid f
  next_le : f.next_session_id ≤ n

weaken : (n : ℕ) {f : Fsm} → ValidBelow n f → ValidBelow (n + 1) f
weaken n v = record { valid = v.valid; next_le = omega (arith, v.next_le) }

module _ (n : ℕ) where
  ValidBelow-SameIds : {f g : Fsm} → SameIds f g → ValidBelow n f → ValidBelow n g
  ValidBelow-SameIds e v = record {
    valid = IsValid-SameIds e v.valid;
    next_le = omega (arith, e.next, v.next_le);
  }

  handle_event-ValidBelow :
      (now : ℕ) (f : Fsm) (id : ℕ) (e : SessionEvent) (bytes : List ℕ)
      → ValidBelow n f
      → Returned (λ r. ValidBelow n (r.0)) (handle_event now f id e bytes)
  handle_event-ValidBelow now f id e bytes v =
      Returned-map (λ r. SameIds f (r.0)) (λ r. ValidBelow n (r.0)) (handle_event now f id e bytes)
        (handle_event-SameIds now f id e bytes) (λ r s. ValidBelow-SameIds s v)

  destroy_session-ValidBelow :
      (f : Fsm) (id : ℕ) → ValidBelow n f → ValidBelow n (destroy_session f id).0
  unfolding destroy_session destroy_in
  destroy_session-ValidBelow f id v =
      if_intro (λ (r : Fsm × Bool). ValidBelow n (r.0)) (not f.initialized || id == 0) _ _ (λ _. v)
        λ e.
          let ne : id ≢ 0 = ground arith in
          record {
            valid =
                destroy_in-IsValid f id (find_slot id f.sessions) v.valid ne
                  (find_slot-Found id f.sessions);
            next_le = next_after (find_slot id f.sessions);
          }
    where
      next_after : (o : Option (ℕ × SessionContext)) → (destroy_in f o).0.next_session_id ≤ n
      next_after none = v.next_le
      next_after (some (i, c)) = v.next_le

create_in-next :
    (now : ℕ) (f : Fsm) (o : Option (ℕ × SessionContext))
    → f.next_session_id + 1 < 2 ^ 32
    → (create_in now f o).0.next_session_id ≤ f.next_session_id + 1
unfolding create_in
create_in-next now f none h = omega arith
create_in-next now f (some (i, c)) h = omega arith

create_session-ValidBelow :
    (n now : ℕ) (f : Fsm)
    → n + 1 < 2 ^ 32
    → ValidBelow n f
    → ValidBelow (n + 1) (create_session now f).0
unfolding create_session
create_session-ValidBelow n now f small v =
    if_intro (λ (r : Fsm × Option ℕ). ValidBelow (n + 1) (r.0)) (not f.initialized) _ _ (λ _. same)
      λ _.
        if_intro (λ (r : Fsm × Option ℕ). ValidBelow (n + 1) (r.0))
          (leb max_sessions f.active_sessions) _ _ (λ _. same)
          λ _. record {
            valid =
                create_in-IsValid now f (find_slot 0 f.sessions) v.valid (omega (arith, v.next_le))
                  (find_slot-Found 0 f.sessions);
            next_le = omega (
              arith,
              create_in-next now f (find_slot 0 f.sessions) (omega (arith, v.next_le)),
              v.next_le,
            );
          }
  where
    same : ValidBelow (n + 1) f
    same = record { valid = v.valid; next_le = omega (arith, v.next_le) }

-- One call gives out one id at most.
apply-ValidBelow :
    (recursive : Bool) (n now : ℕ) (call : Call) (f : Fsm)
    → n + 1 < 2 ^ 32
    → ValidBelow n f
    → Returned (ValidBelow (n + 1)) (apply recursive now call f)
unfolding apply
apply-ValidBelow recursive n now create f small v = create_session-ValidBelow n now f small v
apply-ValidBelow recursive n now (destroy id) f small v =
    weaken n (destroy_session-ValidBelow n f id v)
apply-ValidBelow recursive n now (event id e bytes) f small v =
    Returned->>= (λ r. ValidBelow n (r.0)) (ValidBelow (n + 1)) (handle_event now f id e bytes) _
      (handle_event-ValidBelow n now f id e bytes v) (λ r p. weaken n p)
apply-ValidBelow recursive n now tick f small v =
    Returned-map (ValidBelow n) (ValidBelow (n + 1)) (process_timeouts recursive now f)
      (process_timeouts-keeps (ValidBelow n)
        (λ now f id p. handle_event-ValidBelow n now f id timeout [] p)
        (destroy_session-ValidBelow n)
        (λ now f p. ValidBelow-SameIds n (record { same = refl; active = refl; next = refl }) p)
        recursive now f v)
      (λ g p. weaken n p)
apply-ValidBelow recursive n now (activity id) f small v =
    weaken n (ValidBelow-SameIds n (update_activity-SameIds now f id) v)

run-ValidBelow :
    (recursive : Bool) (n : ℕ) (calls : List (ℕ × Call)) (f : Fsm)
    → n + length calls < 2 ^ 32
    → ValidBelow n f
    → Returned IsValid (run recursive calls f)
unfolding run
run-ValidBelow recursive n [] f small v = v.valid
run-ValidBelow recursive n ((now, call) ∷ calls) f small v =
    Returned->>= (ValidBelow (n + 1)) IsValid (apply recursive now call f) _
      (apply-ValidBelow recursive n now call f (omega arith) v)
      λ g p. run-ValidBelow recursive (n + 1) calls g (omega arith) p

-- From `Session_FSM_Init` on, fewer than 2^32 - 1 calls of any kind, at any times and with any
-- data, if they all return, leave `active_sessions` equal to the number of slots in use, with ids
-- that are all different and were all given out.
pub run-IsValid :
    (recursive : Bool) (now : ℕ) (f : Fsm) (config : SessionFsmConfig) (calls : List (ℕ × Call))
    → length calls < 2 ^ 32 - 1
    → Returned IsValid (run recursive calls (init now f (some config)).0)
run-IsValid recursive now f config calls small =
    run-ValidBelow recursive 1 calls (init now f (some config)).0 (omega arith)
      record { valid = init-IsValid now f config; next_le = unfold init in omega arith }
