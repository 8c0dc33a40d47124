-- ===== src/DtcManager/Trace.antt =====
-- Sequences of calls on the store of trouble codes.
use cant.Prelude.{
  ℕ, ◌+◌, ◌≡◌, refl, Bool, true, false, not, ◌||◌, Option, none, some, List, [], ◌∷◌, ◌⊎◌, inl, inr,
  ltb, leb, ◌==◌, arith, Bool-cases, Option-cases, if_intro, length, length-replicate,
}
use cant.Prelude.{All, All-replicate, All-get_elem?, All-take}
use cant.Prelude.Table.{find_by-Found, Found}
use mathlib.Core.Path.{subst}
use cant.DtcManager.{
  DtcRecord, DtcConfig, DtcStorage, no_record, number, active, init, deinit, max_freeze_frame_size,
  set_status, find_dtc_record,
}
use cant.Prelude.Words.{u32}
use cant.DtcManager.Calls.{
  clear_single, clear_all, set_severity, add_frame_in, add_freeze_frame, store_frame, used_size,
}
use cant.DtcManager.Aging.{aging_loop, aged_storage, process_aging}
use cant.DtcManager.Aging.Loop.{Ages, process_aging-Ages, process_aging_on, process_aging_off}
use cant.DtcManager.Table.{IsValid, set_status_in_lem, clear_in_lem}
use cant.DtcManager.Frames.{
  Frameless, Inv, FramelessResult, set_severity_in-Inv, set_status_in-Frameless, clear_in-Frameless,
  aging_loop-Frameless,
}

-- The calls that change the store, `DTC_AddFreezeFrame` aside, with their arguments and the times
-- they read. `DTC_Init` gets the memory it asks for.
pub data Call (W : Type 0) : Type 0 where
  call_init : Option (DtcConfig W) → Call W
  call_deinit : Call W
  call_set_status : (w : W) (dtc status_mask now later : ℕ) → Call W
  call_clear_single : (dtc : ℕ) → Call W
  call_clear_all : Call W
  call_set_severity : (dtc severity : ℕ) → Call W
  call_process_aging : Call W

module _ {W : Type 0} where
  unfoldable pub call : DtcStorage W → Call W → Option (DtcStorage W)
  call s (call_init config) = some ((init s config true true).0)
  call s call_deinit = some deinit
  call s (call_set_status w dtc status_mask now later) =
      some ((set_status s w dtc status_mask now later).0)
  call s (call_clear_single dtc) = some ((clear_single s dtc).0)
  call s call_clear_all = some (clear_all s)
  call s (call_set_severity dtc severity) = some ((set_severity s dtc severity).0)
  call s call_process_aging = process_aging s

  unfoldable pub run : DtcStorage W → List (Call W) → Option (DtcStorage W)
  run s [] = some s
  run s (c ∷ cs) = elim (call s c) [ none ↦ none | some s' ↦ run s' cs ]

  abbrev InvResult : Option (DtcStorage W) → Type 0
  InvResult none = ⊥
  InvResult (some s) = Inv s

  init-Inv :
      (s : DtcStorage W) (config : Option (DtcConfig W)) → Inv s → Inv (init s config true true).0
  unfolding init
  init-Inv s none v = v
  init-Inv s (some config) v =
      if_intro (λ (x : DtcStorage W × Bool). Inv x.0) _ _ _ (λ e. v)
        (λ e. record {
          valid = λ on. record {
            sized = length-replicate config.max_dtc_count no_record;
            bounded = omega arith;
            distinct = tt;
          };
          frameless = All-replicate Frameless config.max_dtc_count no_record (refl, refl);
        })

  set_status-Inv :
      (s : DtcStorage W) (w : W) (dtc status_mask now later : ℕ)
      → Inv s
      → Inv (set_status s w dtc status_mask now later).0
  unfolding set_status
  set_status-Inv s w dtc status_mask now later v =
      let found = find_by-Found number dtc (active s) in
      if_intro (λ (x : DtcStorage W × W × Bool). Inv x.0) (not s.initialized) _ _ (λ e. v)
        (λ e. record {
          valid = λ on.
              (set_status_in_lem s w dtc status_mask now later 0 (find_dtc_record s dtc)
                (v.valid (ground arith)) found).0;
          frameless =
              set_status_in-Frameless s w dtc status_mask now later (find_dtc_record s dtc)
                v.frameless found;
        })

  clear_single-Inv : (s : DtcStorage W) (dtc : ℕ) → Inv s → Inv (clear_single s dtc).0
  unfolding clear_single
  clear_single-Inv s dtc v =
      let found = find_by-Found number dtc (active s) in
      if_intro (λ (x : DtcStorage W × Bool). Inv x.0) (not s.initialized) _ _ (λ e. v)
        (λ e. record {
          valid =
              λ on. (clear_in_lem s dtc 0 (find_dtc_record s dtc) (v.valid (ground arith)) found).0;
          frameless = clear_in-Frameless s (find_dtc_record s dtc) v.frameless;
        })

  set_severity-Inv :
      (s : DtcStorage W) (dtc severity : ℕ) → Inv s → Inv (set_severity s dtc severity).0
  unfolding set_severity
  set_severity-Inv s dtc severity v =
      if_intro (λ (x : DtcStorage W × Bool). Inv x.0) (not s.initialized) _ _ (λ e. v)
        (λ e.
          set_severity_in-Inv s dtc severity (find_dtc_record s dtc) v
            (find_by-Found number dtc (active s)))

  clear_all-Inv : (s : DtcStorage W) → Inv s → Inv (clear_all s)
  unfolding clear_all
  clear_all-Inv s v =
      if_intro Inv (not s.initialized) _ _ (λ e. v)
        (λ e. record {
          valid = λ on. record {
            sized = length-replicate s.max_records no_record;
            bounded = omega arith;
            distinct = tt;
          };
          frameless = All-replicate Frameless s.max_records no_record (refl, refl);
        })

  aged_storage-Inv :
      (s : DtcStorage W) (o : Option (List DtcRecord × ℕ))
      → Ages s (aged_storage s o)
      → FramelessResult o
      → InvResult (aged_storage s o)
  aged_storage-Inv s none h f = h
  aged_storage-Inv s (some (records, n)) h f = record { valid = λ on. h.1; frameless = f }

  process_aging-Inv : (s : DtcStorage W) → Inv s → InvResult (process_aging s)
  process_aging-Inv s v = elim (Bool-cases s.initialized) [
    | inl on ↦ rw (process_aging_on s on) (
        aged_storage-Inv s (aging_loop s.record_count s.config s.records s.record_count 0)
          (subst (Ages s) (process_aging_on s on) (process_aging-Ages s (v.valid on)))
          (aging_loop-Frameless s.record_count s.config s.records s.record_count 0 v.frameless))
    | inr off ↦ rw (process_aging_off s off) v
  ]

  deinit-Inv : Inv {W = W} deinit
  unfolding deinit
  deinit-Inv = record { valid = λ on. ground arith; frameless = tt }

  call-Inv : (s : DtcStorage W) (c : Call W) → Inv s → InvResult (call s c)
  unfolding call
  call-Inv s (call_init config) v = init-Inv s config v
  call-Inv s call_deinit v = deinit-Inv
  call-Inv s (call_set_status w dtc status_mask now later) v =
      set_status-Inv s w dtc status_mask now later v
  call-Inv s (call_clear_single dtc) v = clear_single-Inv s dtc v
  call-Inv s call_clear_all v = clear_all-Inv s v
  call-Inv s (call_set_severity dtc severity) v = set_severity-Inv s dtc severity v
  call-Inv s call_process_aging v = process_aging-Inv s v

  run-Inv : (s : DtcStorage W) (cs : List (Call W)) → Inv s → InvResult (run s cs)
  unfolding run
  run-Inv s [] v = v
  run-Inv s (c ∷ cs) v = elim (Option-cases (call s c)) [
    | inl e ↦ absurd (subst InvResult e (call-Inv s c v))
    | inr (s', e) ↦ rw (run, e) (run-Inv s' cs (subst InvResult e (call-Inv s c v)))
  ]

  -- Nothing has been stored: the call writes through NULL, or it says no and changes nothing.
  abbrev pub Unstored : DtcStorage W → Option (DtcStorage W × Bool) → Type 0
  Unstored s o = (o ≡ none) ⊎ (o ≡ some (s, false))

  add_frame_in-Unstored :
      (s : DtcStorage W) (bytes : List ℕ) (now dtc : ℕ) (o : Option (ℕ × DtcRecord))
      → All Frameless s.records
      → Found number dtc (active s) o
      → Unstored s (add_frame_in s bytes now o)
  unfolding add_frame_in store_frame
  add_frame_in-Unstored s bytes now dtc none v h = inr refl
  add_frame_in-Unstored s bytes now dtc (some (i, r)) v h =
      let (e, c) =
        All-get_elem? Frameless (active s) i r (All-take Frameless s.record_count s.records v)
          (h.3) in
      let faults : store_frame s i r bytes now r.freeze_frames ≡ none = rw e refl in
      if_intro (Unstored s) (leb s.config.max_freeze_frames_per_dtc r.freeze_frame_count) _ _
        (λ full. inr refl)
        (λ t.
          if_intro (Unstored s)
            (ltb s.freeze_frame_buffer_size (u32 (u32 (used_size (active s)) + length bytes))) _ _
            (λ full. inr refl) (λ t'. inl faults))

  add_freeze_frame-Unstored :
      (s : DtcStorage W) (dtc : ℕ) (bytes : Option (List ℕ)) (now : ℕ)
      → All Frameless s.records
      → Unstored s (add_freeze_frame s dtc bytes now)
  unfolding add_freeze_frame
  add_freeze_frame-Unstored s dtc none now v = inr refl
  add_freeze_frame-Unstored s dtc (some bytes) now v =
      if_intro (Unstored s)
        (not s.initialized || (length bytes == 0 || ltb max_freeze_frame_size (length bytes))) _ _
        (λ refused. inr refl)
        (λ t.
          add_frame_in-Unstored s bytes now dtc (find_dtc_record s dtc) v
            (find_by-Found number dtc (active s)))

  Inv-IsValid : (s : DtcStorage W) → Inv s → (s.initialized ≡ false) ⊎ IsValid s
  Inv-IsValid s v = elim (Bool-cases s.initialized) [
    | inl on ↦ inr (v.valid on)
    | inr off ↦ inl off
  ]

  -- Every sequence of the other calls, `DTC_Init` with the memory it asks for, comes to its end from
  -- the zero storage, the store that it leaves is valid if it is set up, and
  -- `DTC_AddFreezeFrame` on it stores nothing: it says no and changes nothing, or it writes through
  -- a NULL pointer.
  pub run-add_freeze_frame-Unstored :
      (cs : List (Call W)) (dtc : ℕ) (bytes : Option (List ℕ)) (now : ℕ)
      → (s : DtcStorage W) × (run deinit cs ≡ some s)
        × ((s.initialized ≡ false) ⊎ IsValid s)
        × Unstored s (add_freeze_frame s dtc bytes now)
  run-add_freeze_frame-Unstored cs dtc bytes now = elim (Option-cases (run deinit cs)) [
    | inl e ↦ absurd (subst InvResult e (run-Inv deinit cs deinit-Inv))
    | inr (s, e) ↦
        let v = subst InvResult e (run-Inv deinit cs deinit-Inv) in
        (s, e, Inv-IsValid s v, add_freeze_frame-Unstored s dtc bytes now v.frameless)
  ]
