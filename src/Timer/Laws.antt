-- ===== src/Timer/Laws.antt =====
-- A timer measures the time since its start, also where the tick counter wraps.
use cant.Prelude.{ℕ, ◌+◌, ◌-◌, ◌^◌, ◌<◌, ◌≡◌, false, some, arith, leb}
use cant.Prelude.Words.{u32}
use cant.Timer.{Timer, start, stop, expired, remaining}

-- Fewer than 2^32 ms after its start a running timer has expired exactly when its timeout has
-- passed, what remains is the rest of the timeout, and a stopped timer never expires.
pub elapsed_exact :
    (t : Timer) (begin timeout e : ℕ)
    → begin < 2 ^ 32
    → e < 2 ^ 32
    → (expired (start (some t) begin timeout) (u32 (begin + e)) ≡ leb timeout e)
      × (remaining (start (some t) begin timeout) (u32 (begin + e)) ≡ timeout - e)
      × (expired (stop (start (some t) begin timeout)) (u32 (begin + e)) ≡ false)
unfolding start stop expired remaining
elapsed_exact t begin timeout e hb he = (ground arith, ground arith, ground arith)
