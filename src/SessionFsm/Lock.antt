-- ===== src/SessionFsm/Lock.antt =====
-- `Session_FSM_ProcessTimeouts` under a lock that its holder may not take again, as the pthread
-- mutex of src/runtime/diagnostic/os/critical.c is.
use cant.Prelude.{
  ℕ, zero, suc, ◌+◌, ◌≤◌, ◌≡◌, refl, sym, inl, inr, Bool, true, false, not, ◌&&◌, ◌||◌, [], arith,
  ltb, ◌==◌, if◌then◌else◌, Bool-cases, length, drop, drop_step, drop_all, any,
}
use cant.Prelude.Words.{sub32}
use cant.SessionFsm.{
  SessionContext, SessionFsmConfig, Fsm, done, blocked, max_sessions, timeout_check_interval_ms,
}
use cant.SessionFsm.Calls.{p2_of, expire_slot, check_slot, check_at, check_slots, process_timeouts}

-- A session whose S3 time is over, or with an operation pending whose P2 time is over.
abbrev pub overdue : SessionFsmConfig → ℕ → SessionContext → Bool
overdue config now c =
    not (c.session_id == 0)
    && (ltb config.s3_timeout_ms (sub32 now c.last_activity_time)
        || ((not (c.pending_did == 0) || not (c.pending_routine == 0))
            && ltb (p2_of config c) (sub32 now c.state_entry_time)))

check_slot_pthread :
    (now : ℕ) (c : SessionContext) (f : Fsm)
    → check_slot false now c f ≡ (if overdue f.config now c then blocked else done f)
unfolding check_slot expire_slot
check_slot_pthread now c f = ground arith

check_slots_pthread :
    (now i n : ℕ) (f : Fsm)
    → i + n ≡ length f.sessions
    → check_slots false now i n f
      ≡ (if any (overdue f.config now) (drop i f.sessions) then blocked else done f)
unfolding check_slots check_at
check_slots_pthread now i zero f e =
    let none_left : drop i f.sessions ≡ [] = drop_all i f.sessions (omega arith) in rw none_left
check_slots_pthread now i (suc n) f e =
    let (c, here, split) = drop_step i f.sessions (omega arith) in
    rw (here, check_at, split, check_slot_pthread now c f)
      (elim (Bool-cases (overdue f.config now c)) [
        | inl late ↦ rw late refl
        | inr fine ↦ rw fine (check_slots_pthread now (i + 1) n f (omega arith))
      ])

-- With such a lock a check that is due returns only if no session is overdue, and then it only
-- notes the time; if one is overdue it waits for its own lock for ever.
pub process_timeouts_pthread :
    (now : ℕ) (f : Fsm)
    → f.initialized ≡ true
    → length f.sessions ≡ max_sessions
    → timeout_check_interval_ms ≤ sub32 now f.last_timeout_check
    → process_timeouts false now f ≡ (
        if any (overdue f.config now) f.sessions
        then blocked
        else done (record f { last_timeout_check = now }))
unfolding process_timeouts
process_timeouts_pthread now f on sized due = ground (
  arith,
  check_slots_pthread now 0 max_sessions (record f { last_timeout_check = now }) (sym sized),
)
