-- ===== src/SecurityState/Rounds.antt =====
-- Rounds of a seed and a key.
use Prim.Native.Nat.{bit_xor}
use cant.Prelude.{ℕ, ◌+◌, ◌<◌, ◌≡◌, ◌≢◌, refl, Bool, true, false, none, some, arith, lt→ltb}
use cant.Prelude.Words.{u32}
use cant.SecurityState.{
  SecurityStateContext, locked, seed_sent, unlocked, delay_active, request_seed, end_delay,
  seed_after, give_seed, wrong_key, try_key, relocked, calculate_key, max_attempts,
  security_delay_ms, validate_key, seed_key_magic,
}

-- The seed of a level at a time.
abbrev pub seed_of : ℕ → ℕ → ℕ
seed_of time level = bit_xor time (u32 (seed_key_magic + level))

-- A seed is asked for at `time`, and a key is given at `late`.
abbrev pub attempt : ℕ → ℕ → ℕ → SecurityStateContext → SecurityStateContext × Bool
attempt time late key c = let d = (request_seed time time c).0 in try_key late key d.state d

request_seed_locked :
    (before time : ℕ) (c : SecurityStateContext)
    → c.state ≡ locked
    → request_seed before time c ≡ (
      record c { timestamp = time; seed = seed_of time c.level; state = seed_sent },
      some (seed_of time c.level),
    )
unfolding request_seed end_delay seed_after give_seed
request_seed_locked before time c e = rw e refl

request_seed_early :
    (before time : ℕ) (c : SecurityStateContext)
    → c.state ≡ delay_active
    → before < c.delay_end
    → request_seed before time c ≡ (c, none)
unfolding request_seed end_delay seed_after
request_seed_early before time c e h = rw (e, lt→ltb before c.delay_end h) refl

attempt_wrong :
    (time late key : ℕ) (c : SecurityStateContext)
    → c.state ≡ locked
    → key ≢ calculate_key (seed_of time c.level)
    → attempt time late key c ≡ (
      wrong_key late
          (record c { timestamp = time; seed = seed_of time c.level; state = seed_sent }),
      false,
    )
unfolding try_key
attempt_wrong time late key c e ne = rw (request_seed_locked time time c e) (ground arith)

attempt_low :
    (time late key : ℕ) (c : SecurityStateContext)
    → c.state ≡ locked
    → c.attempts + 1 < max_attempts
    → key ≢ calculate_key (seed_of time c.level)
    → let d = (attempt time late key c).0 in
      (d.state ≡ locked) × (d.attempts ≡ c.attempts + 1) × (d.level ≡ c.level)
unfolding wrong_key
attempt_low time late key c e low ne = rw (attempt_wrong time late key c e ne) (ground arith)

attempt_last :
    (time late key : ℕ) (c : SecurityStateContext)
    → c.state ≡ locked
    → c.attempts + 1 ≡ max_attempts
    → key ≢ calculate_key (seed_of time c.level)
    → let d = (attempt time late key c).0 in
      (d.state ≡ delay_active) × (d.delay_end ≡ u32 (late + security_delay_ms))
unfolding wrong_key
attempt_last time late key c e two ne = rw (attempt_wrong time late key c e ne) (ground arith)

-- From a locked context without failed attempts, three rounds with wrong keys start the delay of
-- 10 s after the last of them, and at any time before its end no seed is given out.
pub three_wrong_keys :
    (c : SecurityStateContext) (t₁ l₁ k₁ t₂ l₂ k₂ t₃ l₃ k₃ before time : ℕ)
    → c.state ≡ locked
    → c.attempts ≡ 0
    → k₁ ≢ calculate_key (seed_of t₁ c.level)
    → k₂ ≢ calculate_key (seed_of t₂ c.level)
    → k₃ ≢ calculate_key (seed_of t₃ c.level)
    → before < u32 (l₃ + security_delay_ms)
    → let d = (attempt t₃ l₃ k₃ (attempt t₂ l₂ k₂ (attempt t₁ l₁ k₁ c).0).0).0 in
      (d.state ≡ delay_active)
      × (d.delay_end ≡ u32 (l₃ + security_delay_ms))
      × (request_seed before time d ≡ (d, none))
three_wrong_keys c t₁ l₁ k₁ t₂ l₂ k₂ t₃ l₃ k₃ before time e z n₁ n₂ n₃ h =
    let c₁ = (attempt t₁ l₁ k₁ c).0 in
    let c₂ = (attempt t₂ l₂ k₂ c₁).0 in
    let d = (attempt t₃ l₃ k₃ c₂).0 in
    let (e₁, a₁, v₁) = attempt_low t₁ l₁ k₁ c e (omega arith) n₁ in
    let (e₂, a₂, v₂) = attempt_low t₂ l₂ k₂ c₁ e₁ (omega arith) (rw v₁ n₂) in
    let (state, till) = attempt_last t₃ l₃ k₃ c₂ e₂ (omega arith) (rw (v₂, v₁) n₃) in
    (state, till, request_seed_early before time d state (rw till h))

-- `Security_State_Lock` takes a delay away: while it lasts no seed is given out, but after the call
-- one is, at the same time.
pub relocked_ends_delay :
    (c : SecurityStateContext) (before time : ℕ)
    → c.state ≡ delay_active
    → before < c.delay_end
    → ((request_seed before time c).1 ≡ none)
      × ((request_seed before time (relocked c)).1 ≡ some (seed_of time c.level))
unfolding relocked
relocked_ends_delay c before time e h = (
  rw (request_seed_early before time c e h) refl,
  rw (request_seed_locked before time (record c { state = locked; attempts = 0; seed = 0 }) refl)
      refl,
)

-- From a locked context the key of the seed that is given out opens the access and clears the
-- failed attempts, however many there were.
pub right_key_unlocks :
    (c : SecurityStateContext) (before time late : ℕ)
    → c.state ≡ locked
    → let (d, seed) = request_seed before time c in
      let (d', done) = validate_key late (some d) (calculate_key d.seed) in
      (seed ≡ some d.seed)
      × (d' ≡ some (record d { state = unlocked; attempts = 0 }))
      × (done ≡ true)
unfolding validate_key try_key
right_key_unlocks c before time late e =
    rw (request_seed_locked before time c e) (refl, ground arith, ground arith)
