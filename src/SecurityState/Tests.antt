-- ===== src/SecurityState/Tests.antt =====
-- A key by evaluation, and the theorems of the security access at concrete inputs.
use cant.Prelude.{◌+◌, ◌≡◌, ◌≢◌, refl, true, none, some, arith}
use cant.Prelude.Words.{u32}
use cant.SecurityState.{
  SecurityStateContext, fresh, locked, unlocked, delay_active, request_seed, try_key, relocked,
  calculate_key, validate_key, security_delay_ms, end_delay, seed_after, give_seed,
}
use cant.SecurityState.Attempts.{started, seeded, guessed, IsGuarded, Reached-IsGuarded}
use cant.SecurityState.Rounds.{
  seed_of, attempt, three_wrong_keys, relocked_ends_delay, right_key_unlocks,
}

abbrev shut : SecurityStateContext
shut = record { level = 1; state = locked; timestamp = 0; seed = 0; attempts = 0; delay_end = 0 }

abbrev delayed : SecurityStateContext
delayed = record shut { state = delay_active; delay_end = 10500 }

-- 0 is a wrong key at the times 0, 20 and 40.
zero_wrong :
    (0 ≢ calculate_key (seed_of 0 1))
    × (0 ≢ calculate_key (seed_of 20 1))
    × (0 ≢ calculate_key (seed_of 40 1))
unfolding calculate_key
zero_wrong = (λ e. omega arith, λ e. omega arith, λ e. omega arith)

three_wrong_keys_example :
    let d = (attempt 40 41 0 (attempt 20 21 0 (attempt 0 1 0 shut).0).0).0 in
    (d.state ≡ delay_active)
    × (d.delay_end ≡ u32 (41 + security_delay_ms))
    × (request_seed 10040 10040 d ≡ (d, none))
three_wrong_keys_example =
    three_wrong_keys shut 0 1 0 20 21 0 40 41 0 10040 10040 refl refl (zero_wrong.0) (zero_wrong.1)
      (zero_wrong.2) (omega arith)

relocked_ends_delay_example :
    ((request_seed 500 500 delayed).1 ≡ none)
    × ((request_seed 500 500 (relocked delayed)).1 ≡ some (seed_of 500 1))
relocked_ends_delay_example = relocked_ends_delay delayed 500 500 refl (omega arith)

right_key_unlocks_example :
    let (d, seed) = request_seed 7 7 shut in
    let (d', done) = validate_key 9 (some d) (calculate_key d.seed) in
    (seed ≡ some d.seed) × (d' ≡ some (record d { state = unlocked; attempts = 0 })) × (done ≡ true)
right_key_unlocks_example = right_key_unlocks shut 7 7 9 refl

wrong_at_seven : 0 ≢ calculate_key (request_seed 7 7 (fresh 0 1)).0.seed
unfolding fresh request_seed end_delay seed_after give_seed calculate_key
wrong_at_seven = λ e. omega arith

Reached-IsGuarded_example :
    IsGuarded
      (try_key 9 0 (request_seed 7 7 (fresh 0 1)).0.state (request_seed 7 7 (fresh 0 1)).0).0
Reached-IsGuarded_example = Reached-IsGuarded _ (
    guessed 9 0 (request_seed 7 7 (fresh 0 1)).0 wrong_at_seven
      (seeded 7 7 (fresh 0 1) (started 0 1)))
