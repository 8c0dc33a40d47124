-- ===== src/Timer.antt =====
-- The millisecond timers of src/runtime/utils/timer.c and timer.h. `now` is `system_ticks`, which
-- the tick interrupt counts up and the functions only read.
pub mod Laws
mod Tests
use cant.Prelude.{ℕ, ◌-◌, Bool, true, false, Option, none, some, leb, if◌then◌else◌}
use cant.Prelude.Words.{sub32}

-- `Timer`
pub record Timer : Type 0 where
  pub start_time : ℕ
  pub timeout : ℕ
  pub running : Bool

-- `timer_start`
unfoldable pub start : Option Timer → ℕ → ℕ → Option Timer
start none now timeout = none
start (some t) now timeout = some (record { start_time = now; timeout = timeout; running = true })

-- `timer_stop`
unfoldable pub stop : Option Timer → Option Timer
stop none = none
stop (some t) = some (record t { running = false })

-- `timer_expired`
unfoldable pub expired : Option Timer → ℕ → Bool
expired none now = false
expired (some t) now = if t.running then leb t.timeout (sub32 now t.start_time) else false

-- `timer_remaining`
unfoldable pub remaining : Option Timer → ℕ → ℕ
remaining none now = 0
remaining (some t) now =
    let elapsed = sub32 now t.start_time in
    if t.running then if leb t.timeout elapsed then 0 else t.timeout - elapsed else 0
