-- ===== src/Timer/Tests.antt =====
-- The timer theorem where the tick counter wraps.
use cant.Prelude.{◌+◌, ◌≡◌, false, some, arith}
use cant.Prelude.Words.{u32}
use cant.Timer.{Timer, start, stop, expired, remaining}
use cant.Timer.Laws.{elapsed_exact}

abbrev unused : Timer
unused = record { start_time = 0; timeout = 0; running = false }

-- Started 10 ms before the counter wraps, with a timeout of 50 ms, and read 30 ms later.
elapsed_exact_example :
    (expired (start (some unused) (0xffff_fff6) 50) (u32 (0xffff_fff6 + 30)) ≡ false)
    × (remaining (start (some unused) (0xffff_fff6) 50) (u32 (0xffff_fff6 + 30)) ≡ 20)
    × (expired (stop (start (some unused) (0xffff_fff6) 50)) (u32 (0xffff_fff6 + 30)) ≡ false)
elapsed_exact_example = elapsed_exact unused 0xffff_fff6 50 30 (omega arith) (omega arith)
