-- ===== src/SessionFsm/Table.antt =====
-- Sessions are created and destroyed: the count is right and no id is ever shared.
use cant.Prelude.{
  ℕ, zero, suc, ◌+◌, ◌^◌, ◌<◌, ◌≤◌, ◌≡◌, ◌≢◌, refl, sym, ap, ◌∙◌, ◌⊎◌, inl, inr, true, Option, none,
  some, List, [], ◌∷◌, map, arith, ltb, if◌then◌else◌, Bool-cases, length, get_elem?, set,
  length-set, All, All-set, All-map, count_if, count_if-set, count_if-le-length,
}
use mathlib.Core.Path.{subst}
use cant.Prelude.Words.{u32}
use cant.SessionFsm.{SessionContext, SessionFsmConfig, Fsm, cleared, max_sessions, default}
use cant.SessionFsm.Calls.{
  init, create_in, create_session, destroy_in, destroy_session, opened, find_slot,
}
use cant.SessionFsm.Ids.{
  in_use, Unused, Distinct, Distinct-set, count_if-full, map-set, get_elem?-map,
}
use cant.SessionFsm.Slots.{Found, find_slot-Found}
use cant.SessionFsm.Valid.{id_of, ids, IsValid}

-- `g` is `f` with one free slot taken for a new session: the slot has the next id, the default state
-- and both times at `now`, and keeps the rest of what it held; the other slots are as they were.
abbrev pub Taken : ℕ → Fsm → Fsm → Type 0
Taken now f g =
    (i : ℕ) × (c : SessionContext) × (get_elem? f.sessions i ≡ some c)
    × (c.session_id ≡ 0)
    × (g.sessions
        ≡ set f.sessions i (record c {
          session_id = f.next_session_id;
          current_state = default;
          state_entry_time = now;
          last_activity_time = now;
        }))

-- `Session_FSM_Init` gives a valid, empty table.
pub init-IsValid :
    (now : ℕ) (f : Fsm) (config : SessionFsmConfig) → IsValid (init now f (some config)).0
unfolding init
init-IsValid now f config = omega arith

-- A slot that the search for 0 finds is free, and there is one unless all are in use.
free_slot : (f : Fsm) → IsValid f → f.active_sessions < max_sessions → find_slot 0 f.sessions ≢ none
free_slot f v room e =
    let free : Unused 0 (ids f) =
      unused f.sessions (subst (Found 0 f.sessions) e (find_slot-Found 0 f.sessions)) in
    omega (arith, count_if-full (ids f) free, v.counted, v.slots)
  where
    unused : (cs : List SessionContext) → All (λ c. c.session_id ≢ 0) cs → Unused 0 (map id_of cs)
    unused [] h = tt
    unused (c ∷ cs) h = (h.0, unused cs h.1)

module _ (f : Fsm) (v : IsValid f) (i : ℕ) (c : SessionContext)
    (here : get_elem? f.sessions i ≡ some c) where
  count-set :
      (x : SessionContext)
      → count_if in_use (map id_of (set f.sessions i x)) + (if in_use c.session_id then 1 else 0)
        ≡ f.active_sessions + (if in_use x.session_id then 1 else 0)
  count-set x = rw (map-set id_of f.sessions i x) (
      omega (
        arith,
        count_if-set in_use (ids f) i c.session_id x.session_id
            (get_elem?-map id_of f.sessions i c here),
        v.counted,
      ))

  slots-set : (x : SessionContext) → length (map id_of (set f.sessions i x)) ≡ max_sessions
  slots-set x = rw (map-set id_of f.sessions i x) (length-set (ids f) i x.session_id ∙ v.slots)

Unused-next : (n : ℕ) (is : List ℕ) → All (λ (i : ℕ). i < n) is → Unused n is
Unused-next n is h = All-map (λ (i : ℕ). i < n) (λ (i : ℕ). i ≢ n) is (λ i lt. omega arith) h

pub create_in-IsValid :
    (now : ℕ) (f : Fsm) (o : Option (ℕ × SessionContext))
    → IsValid f
    → f.next_session_id + 1 < 2 ^ 32
    → Found 0 f.sessions o
    → IsValid (create_in now f o).0
unfolding create_in
create_in-IsValid now f none v small found = v
create_in-IsValid now f (some (i, c)) v small found =
    let x = opened f.next_session_id now c in
    let counts = count-set f v i c found.0 x in
    record {
      slots = slots-set f v i c found.0 x;
      counted = ground (arith, counts, found.1, count_if-le-length in_use (ids f));
      distinct = rw (map-set id_of f.sessions i x) (
          Distinct-set (ids f) i f.next_session_id v.distinct
            (inr (Unused-next f.next_session_id (ids f) v.below)));
      below = rw (map-set id_of f.sessions i x) (
          All-set (λ (j : ℕ). j < u32 (f.next_session_id + 1)) (ids f) i f.next_session_id
            (All-map (λ (j : ℕ). j < f.next_session_id) (λ (j : ℕ). j < u32 (f.next_session_id + 1))
              (ids f) (λ j lt. omega arith) v.below)
            (omega arith));
      next_pos = omega arith;
    }

pub destroy_in-IsValid :
    (f : Fsm) (id : ℕ) (o : Option (ℕ × SessionContext))
    → IsValid f
    → id ≢ 0
    → Found id f.sessions o
    → IsValid (destroy_in f o).0
unfolding destroy_in
destroy_in-IsValid f id none v ne found = v
destroy_in-IsValid f id (some (i, c)) v ne found =
    let counts = count-set f v i c found.0 cleared in
    record {
      slots = slots-set f v i c found.0 cleared;
      counted = ground (arith, counts, found.1, count_if-le-length in_use (ids f));
      distinct =
          rw (map-set id_of f.sessions i cleared) (Distinct-set (ids f) i 0 v.distinct (inl refl));
      below =
          rw (map-set id_of f.sessions i cleared)
            (All-set (λ (j : ℕ). j < f.next_session_id) (ids f) i 0 v.below v.next_pos);
      next_pos = v.next_pos;
    }

-- An id taken out of the only entry that has it is gone.
Unused-after :
    (is : List ℕ) (k id : ℕ)
    → Distinct is
    → get_elem? is k ≡ some id
    → id ≢ 0
    → Unused id (set is k 0)
Unused-after [] k id d h ne = cc
Unused-after (i ∷ is) zero id (inl e, d) h ne = absurd (ne (ground arith))
Unused-after (i ∷ is) zero id (inr u, d) h ne =
    let e : some i ≡ some id = h in
    let e' : i ≡ id = cc in ((λ z. ne (sym z)), subst (λ j. Unused j is) e' u)
Unused-after (i ∷ is) (suc k) id (w, d) h ne = (other w, Unused-after is k id d h ne)
  where
    other : (i ≡ 0) ⊎ Unused i is → i ≢ id
    other (inl e) = λ e'. ne (ground arith)
    other (inr u) = λ e'. u_at is k u h (sym e')
      where
        u_at : (is : List ℕ) (k : ℕ) → Unused i is → get_elem? is k ≡ some id → id ≢ i
        u_at [] k u h = cc
        u_at (j ∷ js) zero u h = let e : some j ≡ some id = h in λ z. u.0 (ground arith)
        u_at (j ∷ js) (suc k) u h = u_at js k u.1 h

-- What taking the free slot that the search gives does.
create_in_lem :
    (now : ℕ) (f : Fsm) (o : Option (ℕ × SessionContext))
    → IsValid f
    → f.active_sessions < max_sessions
    → o ≢ none
    → Found 0 f.sessions o
    → ((create_in now f o).1 ≡ some f.next_session_id)
      × ((create_in now f o).0.active_sessions ≡ f.active_sessions + 1)
      × Taken now f (create_in now f o).0
unfolding create_in
create_in_lem now f none v room ne found = absurd (ne refl)
create_in_lem now f (some (i, c)) v room ne found =
    (refl, omega arith, (i, c, found.0, found.1, refl))

create_session_on :
    (now : ℕ) (f : Fsm)
    → f.initialized ≡ true
    → create_session now f ≡ (
        if ltb f.active_sessions max_sessions
        then create_in now f (find_slot 0 f.sessions)
        else (f, none))
unfolding create_session
create_session_on now f on = ground arith

destroy_session_on :
    (f : Fsm) (id : ℕ)
    → f.initialized ≡ true
    → id ≢ 0
    → destroy_session f id ≡ destroy_in f (find_slot id f.sessions)
unfolding destroy_session
destroy_session_on f id on ne = ground arith

-- What taking the found slot away does to the ids and the count.
destroy_in_gone :
    (f : Fsm) (id : ℕ) (o : Option (ℕ × SessionContext))
    → IsValid f
    → id ≢ 0
    → Found id f.sessions o
    → Unused id (ids (destroy_in f o).0)
unfolding destroy_in
destroy_in_gone f id none v ne found = unused f.sessions found
  where
    unused : (cs : List SessionContext) → All (λ c. c.session_id ≢ id) cs → Unused id (map id_of cs)
    unused [] h = tt
    unused (c ∷ cs) h = (h.0, unused cs h.1)
destroy_in_gone f id (some (i, c)) v ne found = rw (map-set id_of f.sessions i cleared) (
    Unused-after (ids f) i id v.distinct
      (get_elem?-map id_of f.sessions i c found.0 ∙ ap some found.1) ne)

destroy_in_count :
    (f : Fsm) (id : ℕ) (o : Option (ℕ × SessionContext))
    → IsValid f
    → id ≢ 0
    → Found id f.sessions o
    → (destroy_in f o).0.active_sessions + (if (destroy_in f o).1 then 1 else 0) ≡ f.active_sessions
unfolding destroy_in
destroy_in_count f id none v ne found = omega arith
destroy_in_count f id (some (i, c)) v ne found =
    ground (arith, count-set f v i c found.0 cleared, found.1, count_if-le-length in_use (ids f))

-- `Session_FSM_CreateSession` on a valid table that is set up, while ids are left (the next one is
-- below 2 ^ 32 - 1). With fewer than 16 sessions it gives out the next id, which no slot had, counts
-- one session more, and changes one slot, which was free: it now holds that id, in the default state
-- and with both times now. With 16 sessions it gives out no id and changes nothing. The table stays
-- valid.
pub create_session_lem :
    (now : ℕ) (f : Fsm)
    → IsValid f
    → f.initialized ≡ true
    → f.next_session_id + 1 < 2 ^ 32
    → let (g, id) = create_session now f in
      IsValid g
      × (((f.active_sessions < max_sessions)
            × (id ≡ some f.next_session_id)
            × (g.active_sessions ≡ f.active_sessions + 1)
            × Taken now f g
            × Unused f.next_session_id (ids f))
          ⊎ ((max_sessions ≤ f.active_sessions) × (id ≡ none) × (g ≡ f)))
create_session_lem now f v on small = elim (Bool-cases (ltb f.active_sessions max_sessions)) [
  | inl room ↦
      let less : f.active_sessions < max_sessions = ground arith in
      let found = find_slot-Found 0 f.sessions in
      let (given, counted, taken) =
        create_in_lem now f (find_slot 0 f.sessions) v less (free_slot f v less) found in
      rw (create_session_on now f on, room)
        (
          create_in-IsValid now f (find_slot 0 f.sessions) v small found,
          inl (less, given, counted, taken, Unused-next f.next_session_id (ids f) v.below),
        )
  | inr full ↦ rw (create_session_on now f on, full) (v, inr (ground arith, refl, refl))
]

-- `Session_FSM_DestroySession` on a valid table: afterwards no slot has the id, the table is valid,
-- and the count is one less exactly if the call succeeded.
pub destroy_session_lem :
    (f : Fsm) (id : ℕ)
    → IsValid f
    → f.initialized ≡ true
    → id ≢ 0
    → let (g, removed) = destroy_session f id in
      IsValid g
      × Unused id (ids g)
      × (g.active_sessions + (if removed then 1 else 0) ≡ f.active_sessions)
destroy_session_lem f id v on ne = rw (destroy_session_on f id on ne) (
  destroy_in-IsValid f id (find_slot id f.sessions) v ne (find_slot-Found id f.sessions),
  destroy_in_gone f id (find_slot id f.sessions) v ne (find_slot-Found id f.sessions),
  destroy_in_count f id (find_slot id f.sessions) v ne (find_slot-Found id f.sessions),
)
