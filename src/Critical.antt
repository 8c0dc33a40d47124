-- ===== src/Critical.antt =====
-- The critical sections of src/runtime/os/critical.c and critical.h. The processor's interrupt mask
-- is reached through the intrinsics `__get_PRIMASK`, `__disable_irq` and `__enable_irq`, of which no
-- definition is in the repository; they are the operations of `Interrupts` on a processor state `C`.
pub mod Nesting
mod Tests
use cant.Prelude.{ℕ, ◌≡◌, Bool, true, false, not, ◌||◌, Option, none, some, ◌==◌, if◌then◌else◌}

-- The intrinsics and what is documented of them: the mask is 1 after interrupts have been
-- disabled and 0 after they have been enabled.
pub record Interrupts (C : Type 0) : Type 0 where
  pub get_primask : C → ℕ
  pub disable_irq : C → C
  pub enable_irq : C → C
  pub disabled : (c : C) → get_primask (disable_irq c) ≡ 1
  pub enabled : (c : C) → get_primask (enable_irq c) ≡ 0

-- `CriticalSection`
pub record CriticalSection : Type 0 where
  pub saved_primask : ℕ
  pub is_locked : Bool

-- `init_critical`
unfoldable pub init_critical : Option CriticalSection → Option CriticalSection
init_critical none = none
init_critical (some cs) = some (record { saved_primask = 0; is_locked = false })

-- `is_in_critical`
unfoldable pub is_in_critical : Option CriticalSection → Bool
is_in_critical none = false
is_in_critical (some cs) = cs.is_locked

module _ {C : Type 0} (irq : Interrupts C) where
  -- `enter_critical`
  unfoldable pub enter_critical : C → Option CriticalSection → C × Option CriticalSection
  enter_critical c none = (c, none)
  enter_critical c (some cs) =
      (irq.disable_irq c, some (record { saved_primask = irq.get_primask c; is_locked = true }))

  -- `exit_critical`
  unfoldable pub exit_critical : C → Option CriticalSection → C × Option CriticalSection
  exit_critical c none = (c, none)
  exit_critical c (some cs) = if not cs.is_locked then (c, some cs) else (
    if cs.saved_primask == 0 then irq.enable_irq c else c,
    some (record cs { is_locked = false }),
  )

  -- Whether interrupts are off.
  abbrev pub masked : C → Bool
  masked c = not (irq.get_primask c == 0)
