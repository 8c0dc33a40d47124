-- ===== src/Isotp/Delivery.antt =====
-- A message that goes through `isotp_transmit`'s frames, `isotp_process` and `isotp_receive`.
use mathlib.Core.Path.{subst}
use cant.Prelude.{
  inl, inr, Bool-cases, ℕ, zero, suc, ◌*◌, ◌/◌, ◌%◌, ◌≤◌, ◌<◌, ◌≡◌, refl, sym, ap, ◌∙◌, Bool, true,
  false, Option, some, List, [], ◌∷◌, ◌++◌, arith, ltb, leb, length, get_or, take, drop, memcpy,
  length-memcpy, take-memcpy, take-take, take-memcpy_zero, memcpy_zero,
}
use cant.Isotp.{
  CanFrame, IsotpConfig, TxState, Isotp, single_frame, first_frame, consecutive_frame, started_tx,
  advanced_tx, single_rx, first_rx, first_length, consecutive_rx, max_payload,
}
use cant.Isotp.Calls.{receive, process_frame}
use cant.Isotp.Reassembly.{
  Linked, Complete, remaining_frames, receive_frames, receive_frames-Complete,
}
use mathlib.Core.Bool.{◌&&◌}
use cant.Isotp.Frames.{
  first_frame-head, single_frame-head, consecutive_frame-head, single_frame-id, single_frame-bytes,
  single_frame-length, first_frame-id, first_frame-bytes, consecutive_frame-id, advanced_tx-nibble,
  first_length-first_frame,
}

abbrev pub Transmit : Type 0 → Type 0
Transmit D = D → CanFrame → ℕ → D × Bool

abbrev pub Receive : Type 0 → Type 0
Receive D = D → D × Option CanFrame

-- `isotp_receive` gives out a complete message once.
pub receive-Complete :
    {D : Type 0} (t : Isotp D) (out buffer : List ℕ) (len n : ℕ)
    → Complete t.rx_state n buffer
    → 0 < n
    → (receive (some t) (some out) (some len)).1 ≡ some (take n buffer ++ drop n out)
unfolding receive
receive-Complete t out buffer len n k pos =
    let given : memcpy out 0 t.rx_state.buffer n ≡ take n buffer ++ drop n out =
      memcpy_zero out t.rx_state.buffer n ∙ ap (λ b. b ++ drop n out) k.bytes in
    ground (arith, given)

pub receive-Complete_rest :
    {D : Type 0} (t : Isotp D) (out buffer : List ℕ) (len n : ℕ)
    → Complete t.rx_state n buffer
    → 0 < n
    → ((receive (some t) (some out) (some len)).2 ≡ some n)
      × ((receive (some t) (some out) (some len)).3 ≡ true)
unfolding receive
receive-Complete_rest t out buffer len n k pos = ground arith

module _ {D : Type 0} (can_transmit : Transmit D) (can_receive : Receive D) where
  -- The rounds of `isotp_process` over the frames that arrive.
  pub process_frames : Isotp D → List CanFrame → Isotp D
  process_frames t [] = t
  process_frames t (f ∷ fs) = process_frames (process_frame can_transmit can_receive t f) fs

  process_frame-single :
      (t : Isotp D) (f : CanFrame)
      → f.id ≡ t.config.rx_id
      → get_or f.bytes 0 0 / 16 ≡ 0
      → process_frame can_transmit can_receive t f ≡ record t { rx_state = single_rx t.rx_state f }
  unfolding process_frame
  process_frame-single t f e pci = ground arith

  process_frame-consecutive :
      (t : Isotp D) (f : CanFrame)
      → f.id ≡ t.config.rx_id
      → get_or f.bytes 0 0 / 16 ≡ 2
      → process_frame can_transmit can_receive t f
        ≡ record t { rx_state = consecutive_rx t.rx_state f }
  unfolding process_frame
  process_frame-consecutive t f e pci = ground arith

  process_frame-first :
      (t : Isotp D) (f : CanFrame)
      → f.id ≡ t.config.rx_id
      → get_or f.bytes 0 0 / 16 ≡ 1
      → 0 < first_length f
      → first_length f ≤ max_payload
      → ((process_frame can_transmit can_receive t f).rx_state ≡ first_rx t.rx_state f)
        × ((process_frame can_transmit can_receive t f).config ≡ t.config)
  unfolding process_frame
  process_frame-first t f e pci pos small = ground arith

  process_frames-remaining :
      (c : IsotpConfig) (rounds : ℕ) (tx : TxState) (t : Isotp D)
      → tx.sequence < 16
      → c.tx_id ≡ t.config.rx_id
      → (process_frames t (remaining_frames c tx rounds)).rx_state
        ≡ receive_frames t.rx_state (remaining_frames c tx rounds)
  unfolding process_frames remaining_frames receive_frames
  process_frames-remaining c zero tx t h e = refl
  process_frames-remaining c (suc rounds) tx t h e = elim (Bool-cases (ltb tx.offset tx.length)) [
    | inl more ↦
        let f = consecutive_frame c tx in
        let pci : get_or f.bytes 0 0 / 16 ≡ 2 = omega (arith, consecutive_frame-head c tx h) in
        rw more (
          ap (λ t'. (process_frames t' (remaining_frames c (advanced_tx tx) rounds)).rx_state)
            (process_frame-consecutive t f (consecutive_frame-id c tx ∙ e) pci)
          ∙ process_frames-remaining c rounds (advanced_tx tx)
              (record t { rx_state = consecutive_rx t.rx_state f }) (advanced_tx-nibble tx) e)
    | inr done ↦ rw done
  ]

  module _ (c : IsotpConfig) (t : Isotp D) (heard : c.tx_id ≡ t.config.rx_id)
      (array : length t.rx_state.buffer ≡ max_payload) (src out : List ℕ) (n len : ℕ)
      (given : n ≤ length src) where
    single_rx-Complete :
        0 < n → n ≤ 7 → Complete (single_rx t.rx_state (single_frame c src n)) n src
    unfolding single_rx
    single_rx-Complete pos small =
        let head : get_or (single_frame c src n).bytes 0 0 % 16 ≡ n =
          omega (arith, single_frame-head c src n small) in
        let ok : (ltb 0 n && leb n 7) ≡ true = ground arith in
        rw head (
          rw ok record {
            ready = refl;
            size = refl;
            bytes =
                take-memcpy_zero t.rx_state.buffer (drop 1 (single_frame c src n).bytes) n
                  (omega (arith, array)) (single_frame-length c src n small given)
                ∙ single_frame-bytes c src n given;
            array =
                length-memcpy t.rx_state.buffer 0 (drop 1 (single_frame c src n).bytes) n
                  (omega (arith, array)) (single_frame-length c src n small given)
                ∙ array;
          })

    -- A message of one to seven bytes: the receiver, whatever it was doing, gives out exactly
    -- those bytes after the one frame, in an array of the caller's, and nothing else is written.
    pub single_delivered :
        0 < n
        → n ≤ 7
        → let t' = process_frames t (single_frame c src n ∷ []) in
          let (_, out', len', done) = receive (some t') (some out) (some len) in
          (out' ≡ some (take n src ++ drop n out)) × (len' ≡ some n) × (done ≡ true)
    unfolding process_frames
    single_delivered pos small =
        let here =
          process_frame-single t (single_frame c src n) (single_frame-id c src n ∙ heard)
            (omega (arith, single_frame-head c src n small)) in
        let t' : Isotp D = record t { rx_state = single_rx t.rx_state (single_frame c src n) } in
        let k = single_rx-Complete pos small in
        let (sized, done) = receive-Complete_rest t' out src len n k pos in
        rw here (receive-Complete t' out src len n k pos, sized, done)

    -- A message of eight to 4095 bytes of which only the first frame comes: the receiver gives out
    -- nothing.
    pub first_withheld :
        7 < n
        → n ≤ max_payload
        → let t' = process_frames t (first_frame c src n ∷ []) in
          receive (some t') (some out) (some len) ≡ (some t', some out, some len, false)
    unfolding process_frames receive first_rx
    first_withheld big small =
        let f = first_frame c src n in
        let fits = first_length-first_frame c src n small in
        let (started, kept) =
          process_frame-first t f (first_frame-id c src n ∙ heard)
            (omega (arith, first_frame-head c src n)) (omega (arith, fits)) (omega (arith, fits)) in
        ground (arith, started)

    pub first_rx-Linked :
        (tx : TxState) (now : ℕ)
        → length tx.buffer ≡ max_payload
        → 7 < n
        → n ≤ max_payload
        → Linked
            (started_tx c now (record tx { buffer = memcpy tx.buffer 0 src n }) n)
            (first_rx t.rx_state (first_frame c src n))
            n
            6
    unfolding started_tx first_rx
    first_rx-Linked tx now sized big small =
        let (six, long) = first_frame-bytes c src n (omega (arith, given)) in
        record {
          tx_length = refl;
          rx_length = first_length-first_frame c src n small;
          small = small;
          tx_offset = refl;
          rx_offset = refl;
          within = omega arith;
          nibble = omega arith;
          in_step = refl;
          tx_array = omega (arith, length-memcpy tx.buffer 0 src n (omega arith) given, sized);
          rx_array =
              length-memcpy t.rx_state.buffer 0 (drop 2 (first_frame c src n).bytes) 6
                (omega (arith, array)) long
              ∙ array;
          busy = ground arith;
          so_far =
              take-memcpy t.rx_state.buffer 0 (drop 2 (first_frame c src n).bytes) 6
                (omega (arith, array)) long
              ∙ six
              ∙ sym (take-take 6 n src (omega arith))
              ∙ ap (take 6) (sym (take-memcpy_zero tx.buffer src n (omega arith) given))
              ∙ take-take 6 n (memcpy tx.buffer 0 src n) (omega arith);
        }

    -- A message of eight to 4095 bytes: after the first frame and the consecutive frames of the
    -- sender the receiver gives out exactly those bytes.
    pub segmented_delivered :
        (tx : TxState) (now rounds : ℕ)
        → length tx.buffer ≡ max_payload
        → 7 < n
        → n ≤ max_payload
        → n ≤ 7 * rounds
        → let tx' = started_tx c now (record tx { buffer = memcpy tx.buffer 0 src n }) n in
          let t' = process_frames t (first_frame c src n ∷ remaining_frames c tx' rounds) in
          let (_, out', len', done) = receive (some t') (some out) (some len) in
          (out' ≡ some (take n src ++ drop n out)) × (len' ≡ some n) × (done ≡ true)
    unfolding process_frames started_tx
    segmented_delivered tx now rounds sized big small enough =
        let f = first_frame c src n in
        let fits = first_length-first_frame c src n small in
        let (started, kept) =
          process_frame-first t f (first_frame-id c src n ∙ heard)
            (omega (arith, first_frame-head c src n)) (omega (arith, fits)) (omega (arith, fits)) in
        let tx' = started_tx c now (record tx { buffer = memcpy tx.buffer 0 src n }) n in
        let t₁ = process_frame can_transmit can_receive t f in
        let rest = remaining_frames c tx' rounds in
        let t' = process_frames t₁ rest in
        let whole : Complete (receive_frames (first_rx t.rx_state f) rest) n tx'.buffer =
          receive_frames-Complete c rounds (first_rx-Linked tx now sized big small) (omega arith) in
        let path : receive_frames (first_rx t.rx_state f) rest ≡ t'.rx_state =
          ap (λ rx. receive_frames rx rest) (sym started)
          ∙ sym (
              process_frames-remaining c rounds tx' t₁ (omega arith)
                (heard ∙ ap (λ g. g.rx_id) (sym kept))) in
        let k : Complete t'.rx_state n tx'.buffer =
          subst (λ rx. Complete rx n tx'.buffer) path whole in
        let (counted, done) = receive-Complete_rest t' out tx'.buffer len n k (omega arith) in
        let bytes : take n tx'.buffer ≡ take n src =
          take-memcpy_zero tx.buffer src n (omega arith) given in
        (
          receive-Complete t' out tx'.buffer len n k (omega arith)
              ∙ ap (λ b. some (b ++ drop n out)) bytes,
          counted,
          done,
        )
