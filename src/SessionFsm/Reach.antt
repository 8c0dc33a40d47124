-- ===== src/SessionFsm/Reach.antt =====
-- Which states the transition table reaches, and what follows for security access.
use cant.Prelude.{
  ℕ, ◌≡◌, refl, ◌⊎◌, inl, inr, Bool, ◌&&◌, Option, none, some, List, [], ◌∷◌, arith, ◌==◌,
  Bool-cases, All, All-replicate,
}
use cant.SessionFsm.{
  SessionState, default, extended, SessionEvent, timeout, Handler, default_timeout, default_request,
  extended_request, SessionContext, SessionFsmConfig, Fsm, cleared, max_sessions, state_transitions,
  handle,
}
use cant.SessionFsm.Calls.{init, take_transition, step}
use cant.SessionFsm.Trace.{Call, run, Returned}
use cant.SessionFsm.Slots.{IsKept, run-Slots}

-- A session in the default or the extended state that has no security level.
pub record IsLocked (c : SessionContext) : Type 0 where
  pub state : (c.current_state ≡ default) ⊎ (c.current_state ≡ extended)
  pub level : c.security_level ≡ 0

-- The table entries of those two states.
abbrev Allowed : Option (SessionState × Handler) → Type 0
Allowed none = Unit
Allowed (some (default, default_timeout)) = Unit
Allowed (some (extended, default_request)) = Unit
Allowed (some (extended, extended_request)) = Unit
Allowed _ = ⊥

state_transitions-Allowed :
    (s : SessionState) (e : SessionEvent)
    → (s ≡ default) ⊎ (s ≡ extended)
    → Allowed (state_transitions s e)
unfolding state_transitions
state_transitions-Allowed default timeout h = tt
state_transitions-Allowed default _ h = tt
state_transitions-Allowed extended timeout h = tt
state_transitions-Allowed extended _ h = tt
state_transitions-Allowed _ e h = absurd (ground arith)

module _ (config : SessionFsmConfig) (now : ℕ) (c : SessionContext) (h : IsLocked c) where
  take_transition-IsLocked :
      (bytes : List ℕ) (o : Option (SessionState × Handler))
      → Allowed o
      → Returned (λ r. IsLocked (r.0)) (take_transition config now c bytes o)
  unfolding take_transition handle
  take_transition-IsLocked bytes none a = h
  take_transition-IsLocked bytes (some (default, default_timeout)) a = record {
    state = inl refl;
    level = refl;
  }
  take_transition-IsLocked [] (some (extended, default_request)) a = tt
  take_transition-IsLocked (b ∷ bs) (some (extended, default_request)) a =
      elim (Bool-cases (b == 0x10)) [
        | inl yes_control ↦ rw yes_control record { state = inr refl; level = h.level }
        | inr other ↦ rw other h
      ]
  take_transition-IsLocked bytes (some (extended, extended_request)) a =
      elim (Bool-cases (config.require_security_access && c.security_level == 0)) [
        | inl refused ↦ rw refused h
        | inr granted ↦ rw granted record { state = inr refl; level = h.level }
      ]
  take_transition-IsLocked _ _ a = absurd a

IsLocked-IsKept : IsKept IsLocked
unfolding step
IsLocked-IsKept = record {
  zeroed = record { state = inl refl; level = refl };
  created = λ id now c h. record { state = inl refl; level = h.level };
  stepped = λ config now c e bytes h.
      take_transition-IsLocked config now c h bytes (state_transitions c.current_state e)
        (state_transitions-Allowed c.current_state e h.state);
  touched = λ now c h. record { state = h.state; level = h.level };
}

-- From `Session_FSM_Init` on, after any sequence of calls that return, at any times with any data,
-- every session is in the default or the extended state and has security level 0: the table leads to no
-- other state, so no call can open a programming session or grant security access.
pub run-IsLocked :
    (recursive : Bool) (now : ℕ) (f : Fsm) (config : SessionFsmConfig) (calls : List (ℕ × Call))
    → Returned (λ g. All IsLocked (g.sessions)) (run recursive calls (init now f (some config)).0)
unfolding init
run-IsLocked recursive now f config calls =
    run-Slots IsLocked IsLocked-IsKept recursive calls (init now f (some config)).0
      (All-replicate IsLocked max_sessions cleared record { state = inl refl; level = refl })
