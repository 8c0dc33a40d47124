-- ===== src/DtcManager/Table.antt =====
-- The records of trouble codes as a map from their numbers.
use cant.Prelude.{
  ℕ, ◌+◌, ◌%◌, ◌^◌, get_or, ◌≡◌, refl, true, ◌&&◌, ◌||◌, Option, none, some, ◌==◌, ltb, leb,
  if◌then◌else◌, arith, ◌∙◌, Bool-cases, inl, inr,
}
use cant.Prelude.Table.{is_some, find_by-Found, entry_of-find_by, lookup, Found}
use cant.Prelude.Table.Arrays.{
  IsTable, add-IsTable, lookup_added, remove-IsTable, lookup_removed, set-IsTable, lookup_changed,
}
use cant.DtcManager.{
  DtcRecord, DtcStorage, number, active, find_dtc_record, touched, claimed, set_status_in,
  set_status, no_record,
}
use cant.DtcManager.Calls.{get_record, clear_in, clear_single}

-- The array keeps its length, the count its bound, and the numbers in use are different.
abbrev pub IsValid : {W : Type 0} → DtcStorage W → Type 0
IsValid s = IsTable number s.max_records s.records s.record_count

-- The record that a report of a code leaves, field by field: the old one with the new status, the
-- time and one more occurrence, or that of a new code in the entry behind the last one in use, which
-- keeps what the entry held before but for the number and the two times.
abbrev pub reported : {W : Type 0} → DtcStorage W → ℕ → ℕ → ℕ → ℕ → Option DtcRecord → DtcRecord
reported s dtc new_status now later none =
    let old = get_or s.records s.record_count no_record in
    record {
      dtc_number = dtc;
      status_mask = new_status;
      severity = old.severity;
      first_occurrence = now;
      last_occurrence = later;
      occurrence_count = (old.occurrence_count + 1) % 2 ^ 32;
      aging_counter = old.aging_counter;
      aged_counter = old.aged_counter;
      freeze_frames = old.freeze_frames;
      freeze_frame_count = old.freeze_frame_count;
    }
reported s dtc new_status now later (some r) = record {
  dtc_number = r.dtc_number;
  status_mask = new_status;
  severity = r.severity;
  first_occurrence = r.first_occurrence;
  last_occurrence = later;
  occurrence_count = (r.occurrence_count + 1) % 2 ^ 32;
  aging_counter = r.aging_counter;
  aged_counter = r.aged_counter;
  freeze_frames = r.freeze_frames;
  freeze_frame_count = r.freeze_frame_count;
}

module _ {W : Type 0} where
  pub get_record_on :
      (s : DtcStorage W) (dtc : ℕ)
      → s.initialized ≡ true
      → get_record s dtc ≡ lookup number dtc (active s)
  unfolding get_record
  get_record_on s dtc on = rw on (entry_of-find_by number dtc (active s))

  pub set_status_in_lem :
      (s : DtcStorage W) (w : W) (dtc status_mask now later k : ℕ) (o : Option (ℕ × DtcRecord))
      → IsValid s
      → Found number dtc (active s) o
      → let (s', w', done) = set_status_in s w dtc status_mask now later o in
        IsValid s'
        × (s'.initialized ≡ s.initialized)
        × (done ≡ (is_some (lookup number dtc (active s)) || ltb s.record_count s.max_records))
        × (lookup number k (active s') ≡ (
            if done && dtc == k
            then some (reported s dtc status_mask now later (lookup number dtc (active s)))
            else lookup number k (active s)))
  unfolding set_status_in
  set_status_in_lem s w dtc status_mask now later k (some (i, r)) v h =
      let new = touched r status_mask later in
      (
        set-IsTable v dtc i r new h (h.2),
        refl,
        rw (h.1) refl,
        lookup_changed v dtc k i r new h (h.2) ∙ rw (h.1) (ground arith),
      )
  set_status_in_lem s w dtc status_mask now later k none v h =
      let new = touched (claimed s dtc now) status_mask later in
      elim (Bool-cases (leb s.max_records s.record_count)) [
        | inl full ↦ rw full (v, refl, rw h (ground arith), refl)
        | inr room ↦ rw room (
          add-IsTable v new (ground arith) h,
          refl,
          rw h (ground arith),
          lookup_added v k new (ground arith) h ∙ rw h refl,
        )
      ]

  set_status_on :
      (s : DtcStorage W) (w : W) (dtc status_mask now later : ℕ)
      → s.initialized ≡ true
      → set_status s w dtc status_mask now later
        ≡ set_status_in s w dtc status_mask now later (find_dtc_record s dtc)
  unfolding set_status
  set_status_on s w dtc status_mask now later on = rw on refl

  -- `DTC_SetStatus` on a valid store that is set up succeeds exactly if the code is known or there
  -- is room for it; the record of the code then is its old record, or the one claimed at the end,
  -- with the new status, the time and one more occurrence; no other code's record changes, and the
  -- store stays valid.
  pub set_status_lem :
      (s : DtcStorage W) (w : W) (dtc status_mask now later k : ℕ)
      → IsValid s
      → s.initialized ≡ true
      → let (s', w', done) = set_status s w dtc status_mask now later in
        IsValid s'
        × (done ≡ (is_some (get_record s dtc) || ltb s.record_count s.max_records))
        × (get_record s' k ≡ (
            if done && dtc == k
            then some (reported s dtc status_mask now later (get_record s dtc))
            else get_record s k))
  set_status_lem s w dtc status_mask now later k v on =
      let (u, on', done, found) =
        set_status_in_lem s w dtc status_mask now later k (find_dtc_record s dtc) v
          (find_by-Found number dtc (active s)) in
      let s' = (set_status_in s w dtc status_mask now later (find_dtc_record s dtc)).0 in
      rw
        (
          set_status_on s w dtc status_mask now later on,
          get_record_on s dtc on,
          get_record_on s' k (on' ∙ on),
          get_record_on s k on,
        )
        (u, done, found)

  pub clear_in_lem :
      (s : DtcStorage W) (dtc k : ℕ) (o : Option (ℕ × DtcRecord))
      → IsValid s
      → Found number dtc (active s) o
      → let (s', done) = clear_in s o in
        IsValid s'
        × (s'.initialized ≡ s.initialized)
        × (done ≡ is_some (lookup number dtc (active s)))
        × (lookup number k (active s') ≡ (if k == dtc then none else lookup number k (active s)))
  unfolding clear_in
  clear_in_lem s dtc k none v h = (v, refl, rw h refl, ground (arith, h))
  clear_in_lem s dtc k (some (i, r)) v h =
      (remove-IsTable v dtc i r h, refl, rw (h.1) refl, lookup_removed v dtc k i r h)

  clear_single_on :
      (s : DtcStorage W) (dtc : ℕ)
      → s.initialized ≡ true
      → clear_single s dtc ≡ clear_in s (find_dtc_record s dtc)
  unfolding clear_single
  clear_single_on s dtc on = rw on refl

  -- `DTC_ClearSingle` on a valid store that is set up succeeds exactly if the code is known;
  -- afterwards it is not, every other code has the record it had, and the store stays valid.
  pub clear_single_lem :
      (s : DtcStorage W) (dtc k : ℕ)
      → IsValid s
      → s.initialized ≡ true
      → let (s', done) = clear_single s dtc in
        IsValid s'
        × (done ≡ is_some (get_record s dtc))
        × (get_record s' k ≡ (if k == dtc then none else get_record s k))
  clear_single_lem s dtc k v on =
      let (u, on', done, found) =
        clear_in_lem s dtc k (find_dtc_record s dtc) v (find_by-Found number dtc (active s)) in
      let s' = (clear_in s (find_dtc_record s dtc)).0 in
      rw
        (
          clear_single_on s dtc on,
          get_record_on s dtc on,
          get_record_on s' k (on' ∙ on),
          get_record_on s k on,
        )
        (u, done, found)
