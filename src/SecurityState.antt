-- ===== src/SecurityState.antt =====
-- The security access of src/runtime/diagnostic/security_state.c and security_state.h. The pointers
-- are `Option`s. `get_timestamp` returns the field of a local variable that nothing has set, so each
-- value that it may give is an argument of its own.
pub mod Attempts
pub mod Rounds
mod Tests
use Prim.Native.Nat.{bit_xor, bit_or}
use cant.Prelude.{
  ℕ, ◌+◌, ◌*◌, ◌/◌, ◌^◌, Bool, true, false, Option, none, some, ltb, leb, ◌==◌, if◌then◌else◌,
}
use cant.Prelude.Words.{u32}

abbrev pub security_delay_ms : ℕ
security_delay_ms = 10000

abbrev pub max_attempts : ℕ
max_attempts = 3

abbrev pub seed_key_magic : ℕ
seed_key_magic = 0x5C731A9B

-- `SecurityState`
pub data SecurityState : Type 0 where
  locked seed_sent unlocked delay_active : SecurityState

-- `SecurityStateContext`
pub record SecurityStateContext : Type 0 where
  pub level : ℕ
  pub state : SecurityState
  pub timestamp : ℕ
  pub seed : ℕ
  pub attempts : ℕ
  pub delay_end : ℕ

-- `calculate_key`
unfoldable pub calculate_key : ℕ → ℕ
calculate_key seed =
    let a = bit_xor seed seed_key_magic in
    let b = u32 (bit_or (u32 (a * 2 ^ 13)) (a / 2 ^ 19) + 0x4D34F521) in
    let c = bit_xor b (b / 2 ^ 7) in let d = u32 (c + u32 (c * 2 ^ 11)) in bit_xor d (d / 2 ^ 5)

-- `Security_State_Init` on a context that is there.
unfoldable pub fresh : ℕ → ℕ → SecurityStateContext
fresh time level = record {
  level = level;
  state = locked;
  timestamp = time;
  seed = 0;
  attempts = 0;
  delay_end = 0;
}

-- `Security_State_Init`
unfoldable pub init : ℕ → Option SecurityStateContext → ℕ → Option SecurityStateContext × Bool
unfolding fresh
init time none level = (none, false)
init time (some c) level = (some (fresh time level), true)

-- A delay that is over ends: `none` while it lasts.
unfoldable pub end_delay : ℕ → SecurityState → SecurityStateContext → Option SecurityStateContext
end_delay time delay_active c =
    if ltb time c.delay_end then none else some (record c { state = locked })
end_delay time locked c = some c
end_delay time seed_sent c = some c
end_delay time unlocked c = some c

-- The seed is given out if the context is locked.
unfoldable pub give_seed :
    ℕ → SecurityState → SecurityStateContext → SecurityStateContext × Option ℕ
give_seed time locked c =
    let seed = bit_xor time (u32 (seed_key_magic + c.level)) in
    (record c { timestamp = time; seed = seed; state = seed_sent }, some seed)
give_seed time seed_sent c = (c, none)
give_seed time unlocked c = (c, none)
give_seed time delay_active c = (c, none)

-- The second part of `Security_State_RequestSeed`, after the delay.
unfoldable pub seed_after :
    ℕ → SecurityStateContext → Option SecurityStateContext → SecurityStateContext × Option ℕ
unfolding give_seed
seed_after time c none = (c, none)
seed_after time c (some c') = give_seed time c'.state c'

-- `Security_State_RequestSeed` with both pointers there; the seed is what it writes, `none` for a
-- result of false. `before` is the time of the test of the delay, `time` that of the seed.
unfoldable pub request_seed : ℕ → ℕ → SecurityStateContext → SecurityStateContext × Option ℕ
unfolding end_delay seed_after
request_seed before time c = seed_after time c (end_delay before c.state c)

-- A wrong key: after `MAX_ATTEMPTS` of them the delay starts.
unfoldable pub wrong_key : ℕ → SecurityStateContext → SecurityStateContext
wrong_key time c =
    if leb max_attempts (u32 (c.attempts + 1))
    then record c { state = delay_active; delay_end = u32 (time + security_delay_ms); attempts = 0 }
    else record c { state = locked; attempts = u32 (c.attempts + 1) }

-- The test of a key in a state.
unfoldable pub try_key : ℕ → ℕ → SecurityState → SecurityStateContext → SecurityStateContext × Bool
unfolding wrong_key
try_key time key seed_sent c =
    if key == calculate_key c.seed
    then (record c { state = unlocked; attempts = 0 }, true)
    else (wrong_key time c, false)
try_key time key locked c = (c, false)
try_key time key unlocked c = (c, false)
try_key time key delay_active c = (c, false)

-- `Security_State_ValidateKey`
unfoldable pub validate_key :
    ℕ → Option SecurityStateContext → ℕ → Option SecurityStateContext × Bool
unfolding try_key
validate_key time none key = (none, false)
validate_key time (some c) key = let (c', done) = try_key time key c.state c in (some c', done)

-- `Security_State_Lock` on a context that is there.
unfoldable pub relocked : SecurityStateContext → SecurityStateContext
relocked c = record c { state = locked; attempts = 0; seed = 0 }

-- `Security_State_Lock`
unfoldable pub lock : Option SecurityStateContext → Option SecurityStateContext × Bool
unfolding relocked
lock none = (none, false)
lock (some c) = (some (relocked c), true)

-- What `Security_State_ProcessTimeout` does in a state.
unfoldable pub timeout_in : ℕ → SecurityState → SecurityStateContext → SecurityStateContext × Bool
timeout_in time delay_active c =
    if leb c.delay_end time then (record c { state = locked }, true) else (c, false)
timeout_in time locked c = (c, false)
timeout_in time seed_sent c = (c, false)
timeout_in time unlocked c = (c, false)

-- `Security_State_ProcessTimeout`
unfoldable pub process_timeout :
    ℕ → Option SecurityStateContext → Option SecurityStateContext × Bool
unfolding timeout_in
process_timeout time none = (none, false)
process_timeout time (some c) = let (c', over) = timeout_in time c.state c in (some c', over)

-- `Security_State_GetState`
unfoldable pub get_state : Option SecurityStateContext → SecurityState
get_state none = locked
get_state (some c) = c.state
