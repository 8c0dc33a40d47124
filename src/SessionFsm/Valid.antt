-- ===== src/SessionFsm/Valid.antt =====
-- The table of sessions stays consistent: a count that is right, and ids that are never shared.
use cant.Prelude.{
  ℕ, ◌<◌, ◌≡◌, refl, sym, ap, ◌∙◌, Bool, not, ◌&&◌, ◌||◌, Option, none, some, List, [], ◌∷◌, map,
  arith, leb, ◌==◌, length, All, if_intro, count_if,
}
use mathlib.Core.Path.{subst}
use cant.SessionFsm.{
  SessionEvent, SessionContext, SessionFsmConfig, Fsm, Outcome, max_sessions, Handler,
  default_timeout, default_request, programming_security, extended_request, safety_error,
  supplier_response, eol_reset, SessionState, handle, state_transitions,
}
use cant.SessionFsm.Calls.{
  find_slot, take_transition, step, handle_in, handle_event, touch_in, update_activity,
  is_out_of_range,
}
use cant.SessionFsm.Ids.{in_use, Distinct, map-set_same}
use cant.SessionFsm.Slots.{Found, find_slot-Found}
use cant.SessionFsm.Trace.{Returned, Returned->>=}

abbrev pub id_of : SessionContext → ℕ
id_of c = c.session_id

abbrev pub ids : Fsm → List ℕ
ids f = map id_of f.sessions

-- `active_sessions` counts the slots in use, their ids are all different, and every id given out
-- so far is below the next.
pub record IsValid (f : Fsm) : Type 0 where
  pub slots : length (ids f) ≡ max_sessions
  pub counted : f.active_sessions ≡ count_if in_use (ids f)
  pub distinct : Distinct (ids f)
  pub below : All (λ (i : ℕ). i < f.next_session_id) (ids f)
  pub next_pos : 0 < f.next_session_id

-- The value, if there is one, has the id of `c`.
abbrev SameId : SessionContext → Outcome (SessionContext × Bool) → Type 0
SameId c = Returned (λ r. (r.0).session_id ≡ c.session_id)

-- A handler never changes the id.
handle-SameId :
    (h : Handler) (config : SessionFsmConfig) (now : ℕ) (c : SessionContext) (bytes : List ℕ)
    → SameId c (handle h config now c bytes)
unfolding handle
handle-SameId default_timeout config now c bytes = refl
handle-SameId default_request config now c [] = tt
handle-SameId default_request config now c (b ∷ bs) = ground arith
handle-SameId programming_security config now c [] =
    if_intro (SameId c) (leb config.max_error_count c.error_counter) _ _ (λ _. refl) (λ _. tt)
handle-SameId programming_security config now c (b ∷ []) =
    if_intro (SameId c) (leb config.max_error_count c.error_counter) _ _ (λ _. refl)
      λ _. if_intro (SameId c) (b == 0x27) _ _ (λ _. tt) (λ _. refl)
handle-SameId programming_security config now c (b ∷ l ∷ bs) =
    if_intro (SameId c) (leb config.max_error_count c.error_counter) _ _ (λ _. refl)
      λ _. if_intro (SameId c) (b == 0x27) _ _ (λ _. refl) (λ _. refl)
handle-SameId extended_request config now c bytes =
    if_intro (SameId c) (config.require_security_access && c.security_level == 0) _ _ (λ _. refl)
      (λ _. refl)
handle-SameId safety_error config now c [] = tt
handle-SameId safety_error config now c (b ∷ bs) = refl
handle-SameId supplier_response config now c bytes =
    if_intro (SameId c) (not config.allow_nested_response && not (c.pending_did == 0)) _ _
      (λ _. refl) (λ _. refl)
handle-SameId eol_reset config now c bytes = refl

take_transition-SameId :
    (config : SessionFsmConfig) (now : ℕ) (c : SessionContext) (bytes : List ℕ)
    (o : Option (SessionState × Handler))
    → SameId c (take_transition config now c bytes o)
unfolding take_transition
take_transition-SameId config now c bytes none = refl
take_transition-SameId config now c bytes (some (next, h)) =
    Returned->>= (λ r. (r.0).session_id ≡ c.session_id) (λ r. (r.0).session_id ≡ c.session_id)
      (handle h config now c bytes) _ (handle-SameId h config now c bytes) λ r e. ground arith

-- `g` has the ids and the counters of `f`.
pub record SameIds (f g : Fsm) : Type 0 where
  pub same : ids g ≡ ids f
  pub active : g.active_sessions ≡ f.active_sessions
  pub next : g.next_session_id ≡ f.next_session_id

pub SameIds-refl : (f : Fsm) → SameIds f f
SameIds-refl f = record { same = refl; active = refl; next = refl }

pub IsValid-SameIds : {f g : Fsm} → SameIds f g → IsValid f → IsValid g
IsValid-SameIds {f} {g} e v = record {
  slots = ap length e.same ∙ v.slots;
  counted = e.active ∙ v.counted ∙ ap (count_if in_use) (sym e.same);
  distinct = subst Distinct (sym e.same) v.distinct;
  below =
      subst (λ n. All (λ (i : ℕ). i < n) (ids g)) (sym e.next)
        (subst (All (λ (i : ℕ). i < f.next_session_id)) (sym e.same) v.below);
  next_pos = subst (λ n. 0 < n) (sym e.next) v.next_pos;
}

handle_in-SameIds :
    (now id : ℕ) (f : Fsm) (e : SessionEvent) (bytes : List ℕ) (o : Option (ℕ × SessionContext))
    → Found id f.sessions o
    → Returned (λ r. SameIds f (r.0)) (handle_in now f e bytes o)
unfolding handle_in step
handle_in-SameIds now id f e bytes none found = SameIds-refl f
handle_in-SameIds now id f e bytes (some (i, c)) found =
    Returned->>= (λ r. (r.0).session_id ≡ c.session_id) (λ r. SameIds f (r.0))
      (step f.config now c e bytes) _
      (take_transition-SameId f.config now c bytes (state_transitions c.current_state e))
      λ r e. record {
        same = map-set_same id_of f.sessions i c (r.0) found.0 e;
        active = refl;
        next = refl;
      }

pub handle_event-SameIds :
    (now : ℕ) (f : Fsm) (id : ℕ) (e : SessionEvent) (bytes : List ℕ)
    → Returned (λ r. SameIds f (r.0)) (handle_event now f id e bytes)
unfolding handle_event
handle_event-SameIds now f id e bytes =
    if_intro (Returned (λ (r : Fsm × Bool). SameIds f (r.0)))
      (not f.initialized || is_out_of_range e) _ _ (λ _. SameIds-refl f)
      λ _.
        handle_in-SameIds now id f e bytes (find_slot id f.sessions) (find_slot-Found id f.sessions)

pub update_activity-SameIds : (now : ℕ) (f : Fsm) (id : ℕ) → SameIds f (update_activity now f id).0
unfolding update_activity touch_in
update_activity-SameIds now f id =
    if_intro (λ (r : Fsm × Bool). SameIds f (r.0)) (not f.initialized) _ _ (λ _. SameIds-refl f)
      λ _. at (find_slot id f.sessions) (find_slot-Found id f.sessions)
  where
    at : (o : Option (ℕ × SessionContext)) → Found id f.sessions o → SameIds f (touch_in now f o).0
    at none found = SameIds-refl f
    at (some (i, c)) found = record {
      same = map-set_same id_of f.sessions i c (record c { last_activity_time = now }) found.0 refl;
      active = refl;
      next = refl;
    }
