-- ===== src/SecurityState/Attempts.antt =====
-- What can be reached without a right key, and how many wrong ones there are.
use cant.Prelude.{ℕ, ◌<◌, ◌≡◌, ◌≢◌, refl, inl, inr, arith, ltb, Bool-cases}
use cant.SecurityState.{
  SecurityState, SecurityStateContext, locked, seed_sent, unlocked, delay_active, fresh,
  request_seed, end_delay, seed_after, give_seed, wrong_key, try_key, relocked, timeout_in,
  calculate_key, max_attempts,
}

-- The contexts that calls at any times reach from `Security_State_Init`, where no key is the right
-- one for the seed it is given for.
pub data Reached : SecurityStateContext → Type 0 where
  started : (time level : ℕ) → Reached (fresh time level)
  seeded :
      (before time : ℕ) (c : SecurityStateContext)
      → Reached c
      → Reached (request_seed before time c).0
  guessed :
      (time key : ℕ) (c : SecurityStateContext)
      → key ≢ calculate_key c.seed
      → Reached c
      → Reached (try_key time key c.state c).0
  locked_again : (c : SecurityStateContext) → Reached c → Reached (relocked c)
  waited : (time : ℕ) (c : SecurityStateContext) → Reached c → Reached (timeout_in time c.state c).0

-- Not unlocked, with fewer failed attempts than allowed.
pub record IsGuarded (c : SecurityStateContext) : Type 0 where
  pub closed : c.state ≢ unlocked
  pub counted : c.attempts < max_attempts

guessed-IsGuarded :
    (time key : ℕ) (s : SecurityState) (c : SecurityStateContext)
    → c.state ≡ s
    → key ≢ calculate_key c.seed
    → IsGuarded c
    → IsGuarded (try_key time key s c).0
unfolding try_key wrong_key
guessed-IsGuarded time key seed_sent c e ne v = ground arith
guessed-IsGuarded time key locked c e ne v = v
guessed-IsGuarded time key unlocked c e ne v = v
guessed-IsGuarded time key delay_active c e ne v = v

given-IsGuarded :
    (time : ℕ) (s : SecurityState) (c : SecurityStateContext)
    → IsGuarded c
    → IsGuarded (give_seed time s c).0
unfolding give_seed
given-IsGuarded time locked c v = ground arith
given-IsGuarded time seed_sent c v = v
given-IsGuarded time unlocked c v = v
given-IsGuarded time delay_active c v = v

seeded-IsGuarded :
    (before time : ℕ) (s : SecurityState) (c : SecurityStateContext)
    → IsGuarded c
    → IsGuarded (seed_after time c (end_delay before s c)).0
unfolding end_delay seed_after
seeded-IsGuarded before time locked c v = given-IsGuarded time c.state c v
seeded-IsGuarded before time seed_sent c v = given-IsGuarded time c.state c v
seeded-IsGuarded before time unlocked c v = given-IsGuarded time c.state c v
seeded-IsGuarded before time delay_active c v = elim (Bool-cases (ltb before c.delay_end)) [
  | inl early ↦ rw early v
  | inr over ↦ rw over (given-IsGuarded time locked (record c { state = locked }) (ground arith))
]

waited-IsGuarded :
    (time : ℕ) (s : SecurityState) (c : SecurityStateContext)
    → IsGuarded c
    → IsGuarded (timeout_in time s c).0
unfolding timeout_in
waited-IsGuarded time delay_active c v = ground arith
waited-IsGuarded time locked c v = v
waited-IsGuarded time seed_sent c v = v
waited-IsGuarded time unlocked c v = v

-- Without a right key no sequence of calls opens the access, and never more than two wrong keys
-- are on the count.
pub Reached-IsGuarded : (c : SecurityStateContext) → Reached c → IsGuarded c
unfolding fresh request_seed relocked
Reached-IsGuarded c (started time level) = ground arith
Reached-IsGuarded c (seeded before time c' r) =
    seeded-IsGuarded before time c'.state c' (Reached-IsGuarded c' r)
Reached-IsGuarded c (guessed time key c' ne r) =
    guessed-IsGuarded time key c'.state c' refl ne (Reached-IsGuarded c' r)
Reached-IsGuarded c (locked_again c' r) = let v = Reached-IsGuarded c' r in ground arith
Reached-IsGuarded c (waited time c' r) = waited-IsGuarded time c'.state c' (Reached-IsGuarded c' r)
