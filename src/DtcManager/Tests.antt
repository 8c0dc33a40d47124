-- ===== src/DtcManager/Tests.antt =====
-- The theorems on trouble codes at concrete inputs.
use cant.Prelude.{
  ◌⊎◌, ℕ, ◌≡◌, refl, true, false, ◌&&◌, ◌||◌, none, some, List, [], ◌∷◌, arith, ltb, ◌==◌,
  if◌then◌else◌,
}
use cant.Prelude.Table.{is_some, lookup}
use cant.Critical.{Interrupts, CriticalSection, masked}
use cant.DtcManager.{DtcRecord, DtcConfig, DtcStorage, no_record, deinit, set_status}
use cant.DtcManager.Calls.{get_record, add_freeze_frame}
use cant.DtcManager.Aging.{process_aging, locked_aging, update_aging_cycle}
use cant.DtcManager.Aging.Loop.{Ages, process_aging-Ages}
use cant.DtcManager.Aging.Reentry.{update_aging_cycle-masked}
use cant.DtcManager.Table.{IsValid, reported, set_status_lem}
use cant.DtcManager.Trace.{
  Call, call_init, call_set_status, call_process_aging, run, Unstored,
  run-add_freeze_frame-Unstored,
}

-- Records age out after two steps with a confirmed one left alone.
abbrev config : DtcConfig ℕ
config = record {
  max_dtc_count = 4;
  max_freeze_frames_per_dtc = 2;
  aging_threshold = 1;
  aging_cycle_counter = 1;
  enable_automatic_clearing = true;
  status_change_callback = none;
}

abbrev code : ℕ → ℕ → DtcRecord
code dtc status = record no_record { dtc_number = dtc; status_mask = status; occurrence_count = 1 }

abbrev storage : DtcStorage ℕ
storage = record deinit {
  records = code 0x10 1 ∷ code 0x20 8 ∷ code 0x30 1 ∷ code 0x40 4 ∷ [];
  record_count = 3;
  max_records = 4;
  config = config;
  initialized = true;
}

storage-IsValid : IsValid storage
unfolding deinit lookup
storage-IsValid = record { sized = refl; bounded = omega arith; distinct = ground arith }

-- A processor that is its interrupt mask.
abbrev mask : Interrupts ℕ
mask = record {
  get_primask = λ c. c;
  disable_irq = λ c. 1;
  enable_irq = λ c. 0;
  disabled = λ c. refl;
  enabled = λ c. refl;
}

abbrev section_of_store : CriticalSection
section_of_store = record { saved_primask = 0; is_locked = false }

set_status_lem_example :
    let (s', w', done) = set_status storage 0 0x50 1 700 700 in
    IsValid s'
    × (done ≡ (is_some (get_record storage 0x50) || ltb 3 4))
    × (get_record s' 0x50 ≡ (
        if done && 0x50 == 0x50
        then some (reported storage 0x50 1 700 700 (get_record storage 0x50))
        else get_record storage 0x50))
unfolding deinit
set_status_lem_example = set_status_lem storage 0 0x50 1 700 700 0x50 storage-IsValid refl

process_aging-Ages_example : Ages storage (process_aging storage)
process_aging-Ages_example = process_aging-Ages storage storage-IsValid

update_aging_cycle-masked_example :
    (masked mask (locked_aging mask storage 0 (some section_of_store)).0 ≡ masked mask 0)
    × (masked mask (update_aging_cycle mask storage 0 (some section_of_store)).0 ≡ true)
    × ((update_aging_cycle mask storage 0 (some section_of_store)).2 ≡ process_aging storage)
update_aging_cycle-masked_example = update_aging_cycle-masked mask storage 0 section_of_store refl

abbrev calls : List (Call ℕ)
calls =
    call_init (some config)
    ∷ call_set_status 0 0x10 1 5 5
    ∷ call_set_status 0 0x20 8 6 6
    ∷ call_process_aging
    ∷ []

run-add_freeze_frame-Unstored_example :
    (s : DtcStorage ℕ) × (run deinit calls ≡ some s)
    × ((s.initialized ≡ false) ⊎ IsValid s)
    × Unstored s (add_freeze_frame s 0x20 (some (1 ∷ [])) 7)
run-add_freeze_frame-Unstored_example = run-add_freeze_frame-Unstored calls 0x20 (some (1 ∷ [])) 7
