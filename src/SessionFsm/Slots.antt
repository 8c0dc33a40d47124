-- ===== src/SessionFsm/Slots.antt =====
-- What every change of one slot keeps, every sequence of calls keeps in all slots.
use mathlib.Core.Path.{subst}
use cant.Prelude.{
  if_intro, ◌||◌, ◌≢◌, leb, ℕ, zero, suc, ◌≡◌, refl, inl, inr, Bool, not, Option, none, some, List,
  [], ◌∷◌, arith, ◌==◌, Bool-cases, get_elem?, All, All-set,
}
use cant.SessionFsm.{
  SessionEvent, timeout, SessionContext, SessionFsmConfig, Fsm, cleared, max_sessions,
}
use cant.SessionFsm.Calls.{
  find_slot, opened, create_session, destroy_session, step, handle_event, process_timeouts,
  update_activity, create_in, destroy_in, handle_in, touch_in, is_out_of_range,
}
use cant.SessionFsm.Timeouts.{process_timeouts-keeps}
use cant.SessionFsm.Trace.{
  Call, create, destroy, event, tick, activity, apply, run, Returned, Returned->>=,
}

-- What the search finds: the first slot with the id, or that there is none.
abbrev pub Found : ℕ → List SessionContext → Option (ℕ × SessionContext) → Type 0
Found id cs none = All (λ (c : SessionContext). c.session_id ≢ id) cs
Found id cs (some (i, c)) = (get_elem? cs i ≡ some c) × (c.session_id ≡ id)

abbrev next_slot : Option (ℕ × SessionContext) → Option (ℕ × SessionContext)
next_slot o = elim o [ none ↦ none | some (i, found) ↦ some (suc i, found) ]

Found-next_slot :
    (id : ℕ) (c : SessionContext) (cs : List SessionContext) (o : Option (ℕ × SessionContext))
    → c.session_id ≢ id
    → Found id cs o
    → Found id (c ∷ cs) (next_slot o)
Found-next_slot id c cs none ne h = (ne, h)
Found-next_slot id c cs (some (i, d)) ne h = h

pub find_slot-Found : (id : ℕ) (cs : List SessionContext) → Found id cs (find_slot id cs)
unfolding find_slot
find_slot-Found id [] = tt
find_slot-Found id (c ∷ cs) = elim (Bool-cases (c.session_id == id)) [
  | inl same ↦ rw same (refl, ground arith)
  | inr other ↦
      rw other (Found-next_slot id c cs (find_slot id cs) (ground arith) (find_slot-Found id cs))
]

-- A predicate of slots that every way of changing a slot keeps.
pub record IsKept (P : SessionContext → Type 0) : Type 0 where
  pub zeroed : P cleared
  pub created : (id now : ℕ) (c : SessionContext) → P c → P (opened id now c)
  pub stepped :
      (config : SessionFsmConfig) (now : ℕ) (c : SessionContext) (e : SessionEvent) (bytes : List ℕ)
      → P c
      → Returned (λ r. P (r.0)) (step config now c e bytes)
  pub touched : (now : ℕ) (c : SessionContext) → P c → P (record c { last_activity_time = now })

All-get {ℓ κ} :
    {A : Type ℓ} (P : A → Type κ) (xs : List A) (i : ℕ) (a : A)
    → get_elem? xs i ≡ some a
    → All P xs
    → P a
All-get P [] i a e h = cc
All-get P (x ∷ xs) zero a e h = let e' : some x ≡ some a = e in subst P (cc e') h.0
All-get P (x ∷ xs) (suc i) a e h = All-get P xs i a e h.1

module _ (P : SessionContext → Type 0) (k : IsKept P) where
  abbrev Slots : Fsm → Type 0
  Slots f = All P f.sessions

  create_in-Slots :
      (now : ℕ) (f : Fsm) (o : Option (ℕ × SessionContext))
      → Found 0 f.sessions o
      → Slots f
      → Slots (create_in now f o).0
  unfolding create_in
  create_in-Slots now f none found h = h
  create_in-Slots now f (some (i, c)) found h =
      All-set P f.sessions i (opened f.next_session_id now c) h
        (k.created f.next_session_id now c (All-get P f.sessions i c found.0 h))

  create_session-Slots : (now : ℕ) (f : Fsm) → Slots f → Slots (create_session now f).0
  unfolding create_session
  create_session-Slots now f h =
      if_intro (λ (r : Fsm × Option ℕ). Slots (r.0)) (not f.initialized) _ _ (λ _. h)
        λ _.
          if_intro (λ (r : Fsm × Option ℕ). Slots (r.0)) (leb max_sessions f.active_sessions) _ _
            (λ _. h)
            λ _. create_in-Slots now f (find_slot 0 f.sessions) (find_slot-Found 0 f.sessions) h

  destroy_in-Slots :
      (f : Fsm) (o : Option (ℕ × SessionContext)) → Slots f → Slots (destroy_in f o).0
  unfolding destroy_in
  destroy_in-Slots f none h = h
  destroy_in-Slots f (some (i, c)) h = All-set P f.sessions i cleared h k.zeroed

  destroy_session-Slots : (f : Fsm) (id : ℕ) → Slots f → Slots (destroy_session f id).0
  unfolding destroy_session
  destroy_session-Slots f id h =
      if_intro (λ (r : Fsm × Bool). Slots (r.0)) (not f.initialized || id == 0) _ _ (λ _. h)
        λ _. destroy_in-Slots f (find_slot id f.sessions) h

  handle_in-Slots :
      (now id : ℕ) (f : Fsm) (e : SessionEvent) (bytes : List ℕ) (o : Option (ℕ × SessionContext))
      → Found id f.sessions o
      → Slots f
      → Returned (λ r. Slots (r.0)) (handle_in now f e bytes o)
  unfolding handle_in
  handle_in-Slots now id f e bytes none found h = h
  handle_in-Slots now id f e bytes (some (i, c)) found h =
      Returned->>= (λ r. P (r.0)) (λ r. Slots (r.0)) (step f.config now c e bytes) _
        (k.stepped f.config now c e bytes (All-get P f.sessions i c found.0 h))
        λ r p. All-set P f.sessions i (r.0) h p

  handle_event-Slots :
      (now : ℕ) (f : Fsm) (id : ℕ) (e : SessionEvent) (bytes : List ℕ)
      → Slots f
      → Returned (λ r. Slots (r.0)) (handle_event now f id e bytes)
  unfolding handle_event
  handle_event-Slots now f id e bytes h =
      if_intro (Returned (λ r. Slots (r.0))) (not f.initialized || is_out_of_range e) _ _ (λ _. h)
        λ _.
          handle_in-Slots now id f e bytes (find_slot id f.sessions) (find_slot-Found id f.sessions)
            h

  process_timeouts-Slots :
      (recursive : Bool) (now : ℕ) (f : Fsm)
      → Slots f
      → Returned Slots (process_timeouts recursive now f)
  process_timeouts-Slots =
      process_timeouts-keeps Slots (λ now f id h. handle_event-Slots now f id timeout [] h)
        destroy_session-Slots (λ now f h. h)

  touch_in-Slots :
      (now id : ℕ) (f : Fsm) (o : Option (ℕ × SessionContext))
      → Found id f.sessions o
      → Slots f
      → Slots (touch_in now f o).0
  unfolding touch_in
  touch_in-Slots now id f none found h = h
  touch_in-Slots now id f (some (i, c)) found h =
      All-set P f.sessions i (record c { last_activity_time = now }) h
        (k.touched now c (All-get P f.sessions i c found.0 h))

  update_activity-Slots :
      (now : ℕ) (f : Fsm) (id : ℕ) → Slots f → Slots (update_activity now f id).0
  unfolding update_activity
  update_activity-Slots now f id h =
      if_intro (λ (r : Fsm × Bool). Slots (r.0)) (not f.initialized) _ _ (λ _. h)
        λ _. touch_in-Slots now id f (find_slot id f.sessions) (find_slot-Found id f.sessions) h

  apply-Slots :
      (recursive : Bool) (now : ℕ) (call : Call) (f : Fsm)
      → Slots f
      → Returned Slots (apply recursive now call f)
  unfolding apply
  apply-Slots recursive now create f h = create_session-Slots now f h
  apply-Slots recursive now (destroy id) f h = destroy_session-Slots f id h
  apply-Slots recursive now (event id e bytes) f h =
      Returned->>= (λ r. Slots (r.0)) Slots (handle_event now f id e bytes) _
        (handle_event-Slots now f id e bytes h) λ r p. p
  apply-Slots recursive now tick f h = process_timeouts-Slots recursive now f h
  apply-Slots recursive now (activity id) f h = update_activity-Slots now f id h

  -- What every change of a slot keeps, every sequence of calls keeps in all slots.
  pub run-Slots :
      (recursive : Bool) (calls : List (ℕ × Call)) (f : Fsm)
      → Slots f
      → Returned Slots (run recursive calls f)
  unfolding run
  run-Slots recursive [] f h = h
  run-Slots recursive ((now, call) ∷ calls) f h =
      Returned->>= Slots Slots (apply recursive now call f) _ (apply-Slots recursive now call f h)
        λ f' p. run-Slots recursive calls f' p
