-- ===== src/DtcManager/Calls.antt =====
-- The other calls of dtc_manager.c on `dtc_storage`.
use cant.Prelude.{
  ℕ, zero, suc, ◌+◌, ◌-◌, Bool, true, false, not, ◌||◌, Option, none, some, List, [], ◌∷◌, ◌++◌,
  ltb, leb, ◌==◌, if◌then◌else◌, take, drop, set, get_elem?, replicate, length,
}
use cant.Prelude.Words.{u32}
use Prim.Native.Nat.{bit_and}
use cant.Prelude.Table.{entry_of, shift_down}
use cant.DtcManager.{
  FreezeFrameRecord, DtcRecord, DtcStorage, no_record, active, find_dtc_record,
  max_freeze_frame_size,
}

-- `DTC_STATUS_TEST_FAILED | DTC_STATUS_CONFIRMED`
abbrev pub status_active : ℕ
status_active = 0x09

-- `DTC_GetRecord`
unfoldable pub get_record : {W : Type 0} → DtcStorage W → ℕ → Option DtcRecord
get_record s dtc = if not s.initialized then none else entry_of (find_dtc_record s dtc)

-- `DTC_GetRecordByIndex`
unfoldable pub get_record_by_index : {W : Type 0} → DtcStorage W → ℕ → Option DtcRecord
get_record_by_index s index =
    if not s.initialized || leb s.record_count index then none else get_elem? s.records index

-- `DTC_GetStatus`
unfoldable pub get_status : {W : Type 0} → DtcStorage W → ℕ → ℕ
get_status s dtc = elim (get_record s dtc) [ none ↦ 0 | some r ↦ r.status_mask ]

-- `DTC_GetSeverity`
unfoldable pub get_severity : {W : Type 0} → DtcStorage W → ℕ → ℕ
get_severity s dtc = elim (get_record s dtc) [ none ↦ 0 | some r ↦ r.severity ]

-- `DTC_GetOccurrenceCount`
unfoldable pub get_occurrence_count : {W : Type 0} → DtcStorage W → ℕ → ℕ
get_occurrence_count s dtc = elim (get_record s dtc) [ none ↦ 0 | some r ↦ r.occurrence_count ]

-- `DTC_IsActive`
unfoldable pub is_active : {W : Type 0} → DtcStorage W → ℕ → Bool
is_active s dtc = elim (get_record s dtc) [
  | none ↦ false
  | some r ↦ not (bit_and r.status_mask status_active == 0)
]

-- `DTC_GetCount`
abbrev pub get_count : {W : Type 0} → DtcStorage W → ℕ
get_count s = s.record_count

-- `DTC_SetSeverity` after the search.
unfoldable pub set_severity_in :
    {W : Type 0} → DtcStorage W → ℕ → Option (ℕ × DtcRecord) → DtcStorage W × Bool
set_severity_in s severity none = (s, false)
set_severity_in s severity (some (i, r)) =
    (record s { records = set s.records i (record r { severity = severity }) }, true)

-- `DTC_SetSeverity`
unfoldable pub set_severity : {W : Type 0} → DtcStorage W → ℕ → ℕ → DtcStorage W × Bool
set_severity s dtc severity =
    if not s.initialized then (s, false) else set_severity_in s severity (find_dtc_record s dtc)

-- `DTC_ClearSingle` after the search.
unfoldable pub clear_in : {W : Type 0} → DtcStorage W → Option (ℕ × DtcRecord) → DtcStorage W × Bool
clear_in s none = (s, false)
clear_in s (some (i, r)) = (
  record s { records = shift_down s.records s.record_count i; record_count = s.record_count - 1 },
  true,
)

-- `DTC_ClearSingle`
unfoldable pub clear_single : {W : Type 0} → DtcStorage W → ℕ → DtcStorage W × Bool
clear_single s dtc = if not s.initialized then (s, false) else clear_in s (find_dtc_record s dtc)

-- `DTC_ClearAll`
unfoldable pub clear_all : {W : Type 0} → DtcStorage W → DtcStorage W
clear_all s = if not s.initialized then s else record s {
  records = replicate s.max_records no_record;
  freeze_frame_buffer = replicate s.freeze_frame_buffer_size 0;
  record_count = 0;
}

-- The inner loop of `allocate_freeze_frame`: the sizes of the first frames of a record.
unfoldable pub frames_size : List FreezeFrameRecord → ℕ → ℕ
frames_size frames zero = 0
frames_size [] (suc n) = 0
frames_size (f ∷ frames) (suc n) = f.data_size + frames_size frames n

-- The offset that the two loops of `allocate_freeze_frame` add up.
unfoldable pub used_size : List DtcRecord → ℕ
used_size [] = 0
used_size (r ∷ rs) =
    elim r.freeze_frames [ none ↦ 0 | some frames ↦ frames_size frames r.freeze_frame_count ]
    + used_size rs

-- `allocate_freeze_frame` and the rest of `DTC_AddFreezeFrame` for the record at index `i`: `none`
-- when the code writes through the NULL that `freeze_frames` holds or behind its end.
unfoldable pub store_frame :
    {W : Type 0}
    → DtcStorage W
    → ℕ
    → DtcRecord
    → List ℕ
    → ℕ
    → Option (List FreezeFrameRecord)
    → Option (DtcStorage W × Bool)
store_frame s i r bytes now none = none
store_frame s i r bytes now (some frames) =
    let offset = u32 (used_size (active s)) in
    let frame : FreezeFrameRecord = record {
      timestamp = now;
      record_number = r.freeze_frame_count + 1;
      start = offset;
      data_size = length bytes;
    } in
    if leb (length frames) r.freeze_frame_count
    then none
    else some (
      record s {
        records = set s.records i (record r {
          freeze_frames = some (set frames r.freeze_frame_count frame);
          freeze_frame_count = r.freeze_frame_count + 1;
        });
        freeze_frame_buffer =
            take offset s.freeze_frame_buffer
            ++ (bytes ++ drop (offset + length bytes) s.freeze_frame_buffer);
      },
      true,
    )

-- `DTC_AddFreezeFrame` after the search.
unfoldable pub add_frame_in :
    {W : Type 0} → DtcStorage W → List ℕ → ℕ → Option (ℕ × DtcRecord) → Option (DtcStorage W × Bool)
add_frame_in s bytes now none = some (s, false)
add_frame_in s bytes now (some (i, r)) =
    if leb s.config.max_freeze_frames_per_dtc r.freeze_frame_count
    then some (s, false)
    else if ltb s.freeze_frame_buffer_size (u32 (u32 (used_size (active s)) + length bytes))
    then some (s, false)
    else store_frame s i r bytes now r.freeze_frames

-- `DTC_AddFreezeFrame`; the size is the length of `bytes`.
unfoldable pub add_freeze_frame :
    {W : Type 0} → DtcStorage W → ℕ → Option (List ℕ) → ℕ → Option (DtcStorage W × Bool)
add_freeze_frame s dtc none now = some (s, false)
add_freeze_frame s dtc (some bytes) now =
    if not s.initialized || (length bytes == 0 || ltb max_freeze_frame_size (length bytes))
    then some (s, false)
    else add_frame_in s bytes now (find_dtc_record s dtc)
