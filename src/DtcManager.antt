-- ===== src/DtcManager.antt =====
-- The store of trouble codes of src/runtime/diagnostic/dtc_manager.c and dtc_manager.h. The static
-- `dtc_storage` is a record that each function takes and returns; a call under the lock is one
-- step. `now` is what `get_system_time_ms` gives, read again where the source reads it again. `W`
-- is the state that the status callback works on. The memory comes from `memory_allocate`, of which
-- no definition is in the repository: a call takes whether it gave the memory. `records` is [] and
-- `freeze_frames` is none for NULL; `start` stands for the `data`
-- of a freeze frame, as an offset in the buffer.
pub mod Calls
pub mod Table
pub mod Aging
pub mod Frames
pub mod Trace
mod Tests
use cant.Prelude.{
  ℕ, ◌+◌, ◌*◌, Bool, true, false, not, ◌&&◌, ◌||◌, Option, none, some, List, [], ltb, leb, ◌==◌,
  if◌then◌else◌, take, set, get_or, replicate,
}
use cant.Prelude.Words.{u32}
use cant.Prelude.Table.{find_by, entry_of, is_some, shift_down}

-- `FreezeFrameRecord`
pub record FreezeFrameRecord : Type 0 where
  pub timestamp : ℕ
  pub record_number : ℕ
  pub start : ℕ
  pub data_size : ℕ

-- `DtcRecord`
pub record DtcRecord : Type 0 where
  pub dtc_number : ℕ
  pub status_mask : ℕ
  pub severity : ℕ
  pub first_occurrence : ℕ
  pub last_occurrence : ℕ
  pub occurrence_count : ℕ
  pub aging_counter : ℕ
  pub aged_counter : ℕ
  pub freeze_frames : Option (List FreezeFrameRecord)
  pub freeze_frame_count : ℕ

-- `DtcConfig`
pub record DtcConfig (W : Type 0) : Type 0 where
  pub max_dtc_count : ℕ
  pub max_freeze_frames_per_dtc : ℕ
  pub aging_threshold : ℕ
  pub aging_cycle_counter : ℕ
  pub enable_automatic_clearing : Bool
  pub status_change_callback : Option (W → ℕ → ℕ → ℕ → W)

-- `DtcStorage`
pub record DtcStorage (W : Type 0) : Type 0 where
  pub records : List DtcRecord
  pub record_count : ℕ
  pub max_records : ℕ
  pub freeze_frame_buffer : List ℕ
  pub freeze_frame_buffer_size : ℕ
  pub config : DtcConfig W
  pub initialized : Bool

abbrev pub max_dtcs : ℕ
max_dtcs = 1000

abbrev pub max_freeze_frames : ℕ
max_freeze_frames = 10

abbrev pub max_freeze_frame_size : ℕ
max_freeze_frame_size = 100

-- `DTC_STATUS_CONFIRMED`
abbrev pub status_confirmed : ℕ
status_confirmed = 0x08

-- A record of zeroes.
abbrev pub no_record : DtcRecord
no_record = record {
  dtc_number = 0;
  status_mask = 0;
  severity = 0;
  first_occurrence = 0;
  last_occurrence = 0;
  occurrence_count = 0;
  aging_counter = 0;
  aged_counter = 0;
  freeze_frames = none;
  freeze_frame_count = 0;
}

-- The key of a record.
abbrev pub number : DtcRecord → ℕ
number r = r.dtc_number

-- The records in use, which the loops visit.
abbrev pub active : {W : Type 0} → DtcStorage W → List DtcRecord
active s = take s.record_count s.records

-- `find_dtc_record`, with the index.
abbrev pub find_dtc_record : {W : Type 0} → DtcStorage W → ℕ → Option (ℕ × DtcRecord)
find_dtc_record s dtc = find_by number dtc (active s)

-- `validate_dtc`
abbrev pub validate_dtc : {W : Type 0} → DtcStorage W → ℕ → Bool
validate_dtc s dtc = is_some (find_dtc_record s dtc)

-- `DTC_Init`, with the answers of the two allocations. Records that were given back are [].
unfoldable pub init :
    {W : Type 0} → DtcStorage W → Option (DtcConfig W) → Bool → Bool → DtcStorage W × Bool
init s none records_given buffer_given = (s, false)
init s (some config) records_given buffer_given =
    let total = config.max_dtc_count * config.max_freeze_frames_per_dtc * max_freeze_frame_size in
    if config.max_dtc_count == 0
      || (ltb max_dtcs config.max_dtc_count
          || ltb max_freeze_frames config.max_freeze_frames_per_dtc)
    then (s, false)
    else if not records_given
    then (record s { records = [] }, false)
    else if not buffer_given
    then (record s { records = []; freeze_frame_buffer = [] }, false)
    else (
      record {
        records = replicate config.max_dtc_count no_record;
        record_count = 0;
        max_records = config.max_dtc_count;
        freeze_frame_buffer = replicate total 0;
        freeze_frame_buffer_size = total;
        config = config;
        initialized = true;
      },
      true,
    )

-- `DTC_DeInit`: the memory is given back and `dtc_storage` is zero.
unfoldable pub deinit : {W : Type 0} → DtcStorage W
deinit = record {
  records = [];
  record_count = 0;
  max_records = 0;
  freeze_frame_buffer = [];
  freeze_frame_buffer_size = 0;
  config = record {
    max_dtc_count = 0;
    max_freeze_frames_per_dtc = 0;
    aging_threshold = 0;
    aging_cycle_counter = 0;
    enable_automatic_clearing = false;
    status_change_callback = none;
  };
  initialized = false;
}

-- The part of `DTC_SetStatus` that both cases share: the new status and the count.
abbrev pub touched : DtcRecord → ℕ → ℕ → DtcRecord
touched r status_mask now = record r {
  status_mask = status_mask;
  last_occurrence = now;
  occurrence_count = u32 (r.occurrence_count + 1);
}

-- The record behind the last one in use, with the number of a new code.
abbrev pub claimed : {W : Type 0} → DtcStorage W → ℕ → ℕ → DtcRecord
claimed s dtc now = record (get_or s.records s.record_count no_record) {
  dtc_number = dtc;
  first_occurrence = now;
}

-- The call of the status callback.
unfoldable pub notify : {W : Type 0} → DtcStorage W → W → ℕ → ℕ → ℕ → W
notify s w dtc old_status status_mask = elim (s.config.status_change_callback) [
  | none ↦ w
  | some f ↦ f w dtc old_status status_mask
]

-- `DTC_SetStatus` after the search.
unfoldable pub set_status_in :
    {W : Type 0}
    → DtcStorage W
    → W
    → ℕ
    → ℕ
    → ℕ
    → ℕ
    → Option (ℕ × DtcRecord)
    → DtcStorage W × W × Bool
set_status_in s w dtc status_mask now later none =
    if leb s.max_records s.record_count then (s, w, false) else (
      record s {
        records = set s.records s.record_count (touched (claimed s dtc now) status_mask later);
        record_count = s.record_count + 1;
      },
      notify s w dtc (claimed s dtc now).status_mask status_mask,
      true,
    )
set_status_in s w dtc status_mask now later (some (i, r)) = (
  record s { records = set s.records i (touched r status_mask later) },
  notify s w dtc r.status_mask status_mask,
  true,
)

-- `DTC_SetStatus`
unfoldable pub set_status :
    {W : Type 0} → DtcStorage W → W → ℕ → ℕ → ℕ → ℕ → DtcStorage W × W × Bool
set_status s w dtc status_mask now later =
    if not s.initialized
    then (s, w, false)
    else set_status_in s w dtc status_mask now later (find_dtc_record s dtc)
