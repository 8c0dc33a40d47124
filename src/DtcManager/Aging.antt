-- ===== src/DtcManager/Aging.antt =====
-- `DTC_ProcessAging` of dtc_manager.c: the loop over an array from which it removes entries, and
-- the description of what it leaves.
pub mod Loop
pub mod Reentry
use cant.Prelude.{
  ℕ, zero, suc, ◌+◌, ◌-◌, Bool, true, false, not, ◌&&◌, Option, none, some, List, [], ◌∷◌, ltb, leb,
  ◌==◌, if◌then◌else◌, set, get_or,
}
use Prim.Native.Nat.{bit_and}
use cant.Prelude.Words.{u32}
use cant.Prelude.Table.{shift_down}
use cant.Critical.{Interrupts, CriticalSection, enter_critical, exit_critical}
use cant.DtcManager.{DtcRecord, DtcConfig, DtcStorage, no_record, status_confirmed}

-- The record after one aging step.
unfoldable pub aged : {W : Type 0} → DtcConfig W → DtcRecord → DtcRecord
aged config r =
    let count = u32 (r.aging_counter + 1) in
    if not (bit_and r.status_mask status_confirmed == 0)
    then r
    else if leb config.aging_threshold count
    then record r { aged_counter = u32 (r.aged_counter + 1); aging_counter = 0 }
    else record r { aging_counter = count }

-- The test for clearing a record, on its counters before the step.
unfoldable pub expires : {W : Type 0} → DtcConfig W → DtcRecord → Bool
expires config r =
    bit_and r.status_mask status_confirmed == 0
    && (leb config.aging_threshold (u32 (r.aging_counter + 1))
        && (config.enable_automatic_clearing
            && leb config.aging_cycle_counter (u32 (r.aged_counter + 1))))

-- The loop of `DTC_ProcessAging` from index `i` on: the array and the count that it leaves, or
-- `none` without fuel. The `i--` after a removal and the `i++` of the loop cancel out, at 0 too.
unfoldable pub aging_loop :
    {W : Type 0} → ℕ → DtcConfig W → List DtcRecord → ℕ → ℕ → Option (List DtcRecord × ℕ)
aging_loop zero config records n i = if ltb i n then none else some (records, n)
aging_loop (suc fuel) config records n i =
    let r = get_or records i no_record in
    let changed = set records i (aged config r) in
    let kept = aging_loop fuel config changed n (i + 1) in
    let cleared = aging_loop fuel config (shift_down changed n i) (n - 1) i in
    if ltb i n then if expires config r then cleared else kept else some (records, n)

-- What the loop leaves in `dtc_storage`.
abbrev pub aged_storage :
    {W : Type 0} → DtcStorage W → Option (List DtcRecord × ℕ) → Option (DtcStorage W)
aged_storage s none = none
aged_storage s (some (records, n)) = some (record s { records = records; record_count = n })

-- `DTC_ProcessAging`, with as many rounds as there are records.
unfoldable pub process_aging : {W : Type 0} → DtcStorage W → Option (DtcStorage W)
process_aging s =
    if not s.initialized
    then some s
    else aged_storage s (aging_loop s.record_count s.config s.records s.record_count 0)

module _ {C : Type 0} (irq : Interrupts C) where
  -- `DTC_ProcessAging` with its critical section.
  unfoldable pub locked_aging :
      {W : Type 0}
      → DtcStorage W
      → C
      → Option CriticalSection
      → C × Option CriticalSection × Option (DtcStorage W)
  locked_aging s c cs =
      let (c1, cs1) = enter_critical irq c cs in
      let (c2, cs2) = exit_critical irq c1 cs1 in
      if not s.initialized then (c, cs, some s) else (c2, cs2, process_aging s)

  -- `DTC_UpdateAgingCycle`: it takes the section that `DTC_ProcessAging` takes again.
  unfoldable pub update_aging_cycle :
      {W : Type 0}
      → DtcStorage W
      → C
      → Option CriticalSection
      → C × Option CriticalSection × Option (DtcStorage W)
  update_aging_cycle s c cs =
      let (c1, cs1) = enter_critical irq c cs in
      let (c2, cs2, result) = locked_aging s c1 cs1 in
      let (c3, cs3) = exit_critical irq c2 cs2 in
      if not s.initialized then (c, cs, some s) else (c3, cs3, result)

-- The records that stay, each after its step.
abbrev pub age_all : {W : Type 0} → DtcConfig W → List DtcRecord → List DtcRecord
age_all config [] = []
age_all config (r ∷ rs) =
    let rest = age_all config rs in if expires config r then rest else aged config r ∷ rest
