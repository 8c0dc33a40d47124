-- ===== src/DtcManager/Aging/Reentry.antt =====
-- `DTC_UpdateAgingCycle` of dtc_manager.c enters its critical section twice.
use cant.Prelude.{◌≡◌, refl, true, some}
use cant.Critical.{Interrupts, CriticalSection, enter_critical, exit_critical, masked}
use cant.Critical.Nesting.{exit-enter}
use cant.DtcManager.{DtcStorage}
use cant.DtcManager.Aging.{process_aging, locked_aging, update_aging_cycle}

module _ {C W : Type 0} (irq : Interrupts C) where
  -- On a store that is set up, `DTC_ProcessAging` leaves interrupts on if they were on, and
  -- `DTC_UpdateAgingCycle`, which ages the records in the same way, leaves them off whether or not
  -- they were on.
  pub update_aging_cycle-masked :
      (s : DtcStorage W) (c : C) (cs : CriticalSection)
      → s.initialized ≡ true
      → (masked irq (locked_aging irq s c (some cs)).0 ≡ masked irq c)
        × (masked irq (update_aging_cycle irq s c (some cs)).0 ≡ true)
        × ((update_aging_cycle irq s c (some cs)).2 ≡ process_aging s)
  unfolding locked_aging update_aging_cycle enter_critical exit_critical
  update_aging_cycle-masked s c cs on = rw on (
    exit-enter irq c (enter_critical irq c (some cs)).0 (some cs) refl,
    rw (irq.disabled c, irq.disabled (irq.disable_irq c)) refl,
    refl,
  )
