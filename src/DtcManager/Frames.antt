-- ===== src/DtcManager/Frames.antt =====
-- The records of the store of trouble codes have no freeze frames.
use cant.Prelude.{
  ℕ, zero, suc, ◌+◌, ◌-◌, ◌≡◌, refl, Bool, true, Option, none, some, List, ltb, leb, set, get_or,
  arith, if_intro,
}
use cant.Prelude.{All, All-set, All-get_or, All-get_elem?, All-take}
use cant.Prelude.Table.{shift_down, Found}
use cant.Prelude.Table.Arrays.{set-IsTable, All-shift_down}
use cant.DtcManager.{
  DtcRecord, DtcConfig, DtcStorage, no_record, number, active, set_status_in, touched,
}
use cant.DtcManager.Calls.{clear_in, set_severity_in}
use cant.DtcManager.Aging.{aged, expires, aging_loop}
use cant.DtcManager.Table.{IsValid}

-- A record without freeze frames.
abbrev pub Frameless : DtcRecord → Type 0
Frameless r = (r.freeze_frames ≡ none) × (r.freeze_frame_count ≡ 0)

-- A store that is set up is valid, and no record has a freeze frame.
pub record Inv {W : Type 0} (s : DtcStorage W) : Type 0 where
  pub valid : s.initialized ≡ true → IsValid s
  pub frameless : All Frameless s.records

-- The array that the aging loop leaves.
abbrev pub FramelessResult : Option (List DtcRecord × ℕ) → Type 0
FramelessResult none = Unit
FramelessResult (some (records, n)) = All Frameless records

module _ {W : Type 0} where
  pub set_severity_in-Inv :
      (s : DtcStorage W) (dtc severity : ℕ) (o : Option (ℕ × DtcRecord))
      → Inv s
      → Found number dtc (active s) o
      → Inv (set_severity_in s severity o).0
  unfolding set_severity_in
  set_severity_in-Inv s dtc severity none v h = v
  set_severity_in-Inv s dtc severity (some (i, r)) v h =
      let f =
        All-get_elem? Frameless (active s) i r
          (All-take Frameless s.record_count s.records v.frameless) (h.3) in
      let new = record r { severity = severity } in
      record {
        valid = λ on. set-IsTable (v.valid on) dtc i r new h (h.2);
        frameless = All-set Frameless s.records i new v.frameless f;
      }

  pub set_status_in-Frameless :
      (s : DtcStorage W) (w : W) (dtc status_mask now later : ℕ) (o : Option (ℕ × DtcRecord))
      → All Frameless s.records
      → Found number dtc (active s) o
      → All Frameless (set_status_in s w dtc status_mask now later o).0.records
  unfolding set_status_in
  set_status_in-Frameless s w dtc status_mask now later none v h =
      if_intro (λ (x : DtcStorage W × W × Bool). All Frameless x.0.records)
        (leb s.max_records s.record_count) _ _ (λ full. v)
        (λ room.
          All-set Frameless s.records s.record_count _ v
            (All-get_or Frameless s.records s.record_count no_record v (refl, refl)))
  set_status_in-Frameless s w dtc status_mask now later (some (i, r)) v h =
      All-set Frameless s.records i (touched r status_mask later) v (
        All-get_elem? Frameless (active s) i r (All-take Frameless s.record_count s.records v)
          (h.3))

  pub clear_in-Frameless :
      (s : DtcStorage W) (o : Option (ℕ × DtcRecord))
      → All Frameless s.records
      → All Frameless (clear_in s o).0.records
  unfolding clear_in
  clear_in-Frameless s none v = v
  clear_in-Frameless s (some (i, r)) v = All-shift_down Frameless s.records s.record_count i v

  aged-Frameless : (config : DtcConfig W) (r : DtcRecord) → Frameless r → Frameless (aged config r)
  unfolding aged
  aged-Frameless config r h = ground (arith, h)

  pub aging_loop-Frameless :
      (fuel : ℕ) (config : DtcConfig W) (records : List DtcRecord) (n i : ℕ)
      → All Frameless records
      → FramelessResult (aging_loop fuel config records n i)
  unfolding aging_loop
  aging_loop-Frameless zero config records n i h =
      if_intro FramelessResult (ltb i n) _ _ (λ e. tt) (λ e. h)
  aging_loop-Frameless (suc fuel) config records n i h =
      let r = get_or records i no_record in
      let k =
        All-set Frameless records i (aged config r) h
          (aged-Frameless config r (All-get_or Frameless records i no_record h (refl, refl))) in
      if_intro FramelessResult (ltb i n) _ _
        (λ e.
          if_intro FramelessResult (expires config r) _ _
            (λ e'.
              aging_loop-Frameless fuel config (shift_down (set records i (aged config r)) n i)
                (n - 1) i (All-shift_down Frameless (set records i (aged config r)) n i k))
            (λ e'. aging_loop-Frameless fuel config (set records i (aged config r)) n (i + 1) k))
        (λ e. h)
