-- ===== src/Isotp/Wire.antt =====
-- The sender and the receiver of isotp.c joined by a bus that delivers every frame in order.
use cant.Prelude.{
  inl, inr, Bool-cases, ℕ, zero, suc, ◌*◌, ◌≤◌, ◌<◌, ◌≡◌, refl, sym, ap, ◌∙◌, true, Option, none,
  some, List, [], ◌∷◌, ◌++◌, append-nil, append_assoc, arith, ltb, leb, if◌then◌else◌, length, take,
  drop, memcpy,
}
use cant.Isotp.{
  CanFrame, IsotpConfig, TxState, Isotp, single_frame, first_frame, consecutive_frame, started_tx,
  advanced_tx, max_payload,
}
use cant.Isotp.Calls.{receive, transmit, send_consecutive_frame}
use cant.Isotp.Reassembly.{remaining_frames}
use cant.Isotp.Delivery.{
  Transmit, Receive, process_frames, single_delivered, first_withheld, segmented_delivered,
}

-- A bus that takes every frame, in order, and has none to hand out.
abbrev pub Bus : Type 0
Bus = List CanFrame

unfoldable pub bus_transmit : Transmit Bus
bus_transmit sent f timeout = (sent ++ (f ∷ []), true)

unfoldable pub bus_receive : Receive Bus
bus_receive sent = (sent, none)

-- `send_consecutive_frame`, called until the message is out, at most `rounds` times. isotp.c has
-- the function and no call of it: the calls are those that a sender of the rest would make.
unfoldable pub send_rest : ℕ → Isotp Bus → Isotp Bus
send_rest zero s = s
send_rest (suc rounds) s =
    let rest = send_rest rounds (send_consecutive_frame bus_transmit bus_receive s).0 in
    if ltb s.tx_state.offset s.tx_state.length then rest else s

unfoldable pub rest_of : ℕ → Option (Isotp Bus) → List CanFrame
rest_of rounds none = []
rest_of rounds (some s) = (send_rest rounds s).can_driver

-- The frames on the bus after one call of `isotp_transmit` and then at most `rounds` calls of
-- `send_consecutive_frame`; with no rounds, those that `isotp_transmit` sends.
unfoldable pub frames_of : ℕ → ℕ → Isotp Bus → List ℕ → ℕ → List CanFrame
unfolding rest_of
frames_of rounds now s src n =
    rest_of rounds (transmit bus_transmit bus_receive now (some s) (some src) n).0

can_driver-send_rest :
    (rounds : ℕ) (s : Isotp Bus)
    → (send_rest rounds s).can_driver ≡ s.can_driver ++ remaining_frames s.config s.tx_state rounds
unfolding send_rest remaining_frames send_consecutive_frame bus_transmit
can_driver-send_rest zero s = sym (append-nil s.can_driver)
can_driver-send_rest (suc rounds) s = elim (Bool-cases (ltb s.tx_state.offset s.tx_state.length)) [
  | inl more ↦ rw more (
      can_driver-send_rest rounds (record s {
        tx_state = advanced_tx s.tx_state;
        can_driver = s.can_driver ++ (consecutive_frame s.config s.tx_state ∷ []);
      })
      ∙ append_assoc s.can_driver (consecutive_frame s.config s.tx_state ∷ [])
          (remaining_frames s.config (advanced_tx s.tx_state) rounds))
  | inr done ↦ rw done (sym (append-nil s.can_driver))
]

remaining_frames_idle :
    (c : IsotpConfig) (tx : TxState) (rounds : ℕ)
    → tx.length ≤ tx.offset
    → remaining_frames c tx rounds ≡ []
unfolding remaining_frames
remaining_frames_idle c tx zero h = refl
remaining_frames_idle c tx (suc rounds) h = ground arith

module _ (s : Isotp Bus) (quiet : s.can_driver ≡ []) (idle : s.tx_state.length ≤ s.tx_state.offset)
    (now rounds : ℕ) (src : List ℕ) (n : ℕ) where
  transmit_single :
      0 < n
      → n ≤ 7
      → transmit bus_transmit bus_receive now (some s) (some src) n
        ≡ (some (record s { can_driver = single_frame s.config src n ∷ [] }), true)
  unfolding transmit bus_transmit
  transmit_single pos small = ground arith

  transmit_segmented :
      7 < n
      → n ≤ max_payload
      → transmit bus_transmit bus_receive now (some s) (some src) n ≡ (
        some (record s {
          can_driver = first_frame s.config src n ∷ [];
          tx_state =
              started_tx s.config now
                (record s.tx_state { buffer = memcpy s.tx_state.buffer 0 src n })
                n;
        }),
        true,
      )
  unfolding transmit bus_transmit
  transmit_segmented big small = ground arith

  frames_of-single : 0 < n → n ≤ 7 → frames_of rounds now s src n ≡ single_frame s.config src n ∷ []
  unfolding frames_of
  frames_of-single pos small =
      let sent = record s { can_driver = single_frame s.config src n ∷ [] } in
      ap (λ r. rest_of rounds (r.0)) (transmit_single pos small)
      ∙ can_driver-send_rest rounds sent
      ∙ ap (λ fs. single_frame s.config src n ∷ fs)
          (remaining_frames_idle s.config s.tx_state rounds idle)

  frames_of-segmented :
      7 < n
      → n ≤ max_payload
      → frames_of rounds now s src n
        ≡ first_frame s.config src n
          ∷ remaining_frames s.config
              (started_tx s.config now
                (record s.tx_state { buffer = memcpy s.tx_state.buffer 0 src n })
                n)
              rounds
  unfolding frames_of
  frames_of-segmented big small =
      ap (λ r. rest_of rounds (r.0)) (transmit_segmented big small)
      ∙ can_driver-send_rest rounds (record s {
        can_driver = first_frame s.config src n ∷ [];
        tx_state =
            started_tx s.config now
              (record s.tx_state { buffer = memcpy s.tx_state.buffer 0 src n }) n;
      })

frames_of-first :
    (s : Isotp Bus)
    → s.can_driver ≡ []
    → s.tx_state.length ≤ s.tx_state.offset
    → (now : ℕ) (src : List ℕ) (n : ℕ) → 7 < n
    → n ≤ max_payload
    → frames_of 0 now s src n ≡ first_frame s.config src n ∷ []
unfolding remaining_frames
frames_of-first s quiet idle now src n big small =
    frames_of-segmented s quiet idle now 0 src n big small

module _ (s : Isotp Bus) (quiet : s.can_driver ≡ []) (idle : s.tx_state.length ≤ s.tx_state.offset)
    (now rounds : ℕ) (src : List ℕ) (n : ℕ) where
  -- End to end, for a message of 1 to 4095 bytes from a sender with an empty bus and nothing left to
  -- send, to a receiver that listens to the sender's id, whatever the receiver was doing. After the
  -- one frame that `isotp_transmit` sends, `isotp_receive` gives out the message exactly if it has at
  -- most seven bytes. After that frame and those of enough calls of `send_consecutive_frame`,
  -- processed in order, it gives out exactly the bytes of the message.
  pub end_to_end :
      {D : Type 0} (can_transmit : Transmit D) (can_receive : Receive D) (t : Isotp D)
      (out : List ℕ) (len : ℕ)
      → length s.tx_state.buffer ≡ max_payload
      → s.config.tx_id ≡ t.config.rx_id
      → length t.rx_state.buffer ≡ max_payload
      → 0 < n
      → n ≤ max_payload
      → n ≤ length src
      → n ≤ 7 * rounds
      → let alone = process_frames can_transmit can_receive t (frames_of 0 now s src n) in
        let t' = process_frames can_transmit can_receive t (frames_of rounds now s src n) in
        let (_, out', len', done) = receive (some t') (some out) (some len) in
        ((receive (some alone) (some out) (some len)).3 ≡ leb n 7)
        × (out' ≡ some (take n src ++ drop n out))
        × (len' ≡ some n)
        × (done ≡ true)
  end_to_end can_transmit can_receive t out len sized heard array pos small given enough =
      elim (Bool-cases (leb n 7)) [
        | inl one ↦
            let few : n ≤ 7 = ground arith in
            let (bytes, size, done) =
              single_delivered can_transmit can_receive s.config t heard array src out n len given
                pos few in
            rw
              (
                frames_of-single s quiet idle now 0 src n pos few,
                frames_of-single s quiet idle now rounds src n pos few,
                one,
              )
              (done, bytes, size, done)
        | inr more ↦
            let big : 7 < n = ground arith in
            let withheld =
              ap (λ r. r.3)
                (first_withheld can_transmit can_receive s.config t heard array src out n len given
                  big small) in
            let (bytes, size, done) =
              segmented_delivered can_transmit can_receive s.config t heard array src out n len
                given s.tx_state now rounds sized big small enough in
            rw
              (
                frames_of-first s quiet idle now src n big small,
                frames_of-segmented s quiet idle now rounds src n big small,
                more,
              )
              (withheld, bytes, size, done)
      ]
