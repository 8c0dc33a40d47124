-- ===== src/SessionFsm/Trace.antt =====
-- Sequences of calls on the session state machine, and what every slot keeps through all of them.
use cant.Prelude.{ℕ, Bool, List, [], ◌∷◌}
use cant.SessionFsm.{SessionEvent, Fsm, Outcome, done, fault, blocked, ◌>>=◌}
use cant.SessionFsm.Calls.{
  create_session, destroy_session, handle_event, process_timeouts, update_activity,
}

-- A call with its arguments.
pub data Call : Type 0 where
  create : Call
  destroy : ℕ → Call
  event : ℕ → SessionEvent → List ℕ → Call
  tick : Call
  activity : ℕ → Call

module _ (recursive : Bool) where
  -- One call at the time `now`.
  unfoldable pub apply : ℕ → Call → Fsm → Outcome Fsm
  apply now create f = done (create_session now f).0
  apply now (destroy id) f = done (destroy_session f id).0
  apply now (event id e bytes) f = handle_event now f id e bytes >>= λ r. done (r.0)
  apply now tick f = process_timeouts recursive now f
  apply now (activity id) f = done (update_activity now f id).0

  -- Calls in order, each with its time.
  unfoldable pub run : List (ℕ × Call) → Fsm → Outcome Fsm
  run [] f = done f
  run ((now, call) ∷ calls) f = apply now call f >>= (λ f'. run calls f')

-- What holds of the value of a call that returns.
abbrev pub Returned : {A : Type 0} → (A → Type 0) → Outcome A → Type 0
Returned P (done a) = P a
Returned P fault = Unit
Returned P blocked = Unit

pub Returned->>= :
    {A B : Type 0} (P : A → Type 0) (Q : B → Type 0) (m : Outcome A) (g : A → Outcome B)
    → Returned P m
    → ((a : A) → P a → Returned Q (g a))
    → Returned Q (m >>= g)
Returned->>= P Q (done a) g h k = k a h
Returned->>= P Q fault g h k = tt
Returned->>= P Q blocked g h k = tt

pub Returned-map :
    {A : Type 0} (P Q : A → Type 0) (m : Outcome A)
    → Returned P m
    → ((a : A) → P a → Q a)
    → Returned Q m
Returned-map P Q (done a) h k = k a h
Returned-map P Q fault h k = tt
Returned-map P Q blocked h k = tt
