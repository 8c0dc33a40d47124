-- ===== src/Critical/Tests.antt =====
-- The theorems on critical sections at concrete inputs.
use cant.Prelude.{ℕ, ◌≡◌, refl, false, Option, some}
use cant.Critical.{Interrupts, CriticalSection, masked}
use cant.Critical.Nesting.{Nest, done, lock, run, run-masked}

-- A processor that is its interrupt mask.
abbrev mask : Interrupts ℕ
mask = record {
  get_primask = λ c. c;
  disable_irq = λ c. 1;
  enable_irq = λ c. 0;
  disabled = λ c. refl;
  enabled = λ c. refl;
}

abbrev unlocked : ℕ → Option CriticalSection
unlocked i = some (record { saved_primask = 0; is_locked = false })

-- A section inside another, and the first again.
abbrev nested : Nest
nested = lock 0 (lock 1 done done) (lock 0 done done)

run-masked_example : masked mask (run mask nested (0, unlocked)).0 ≡ masked mask 0
run-masked_example = run-masked mask nested (0, unlocked) (refl, (refl, tt, tt), (refl, tt, tt))
