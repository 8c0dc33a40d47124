-- ===== src/Isotp/Tests.antt =====
-- Messages through the transport, and its theorems at concrete inputs.
use cant.Prelude.{
  leb, ℕ, ◌<◌, ◌≡◌, refl, inl, Bool, true, false, Option, none, some, List, [], ◌∷◌, ◌++◌, arith,
  length, take, drop, replicate, length-replicate,
}
use cant.Isotp.{CanFrame, IsotpConfig, RxState, Isotp, blank, max_payload}
use cant.Isotp.Calls.{idle_timer, receive, process_frame, process}
use cant.Isotp.Delivery.{process_frames}
use cant.Isotp.Wire.{Bus, bus_transmit, bus_receive, frames_of, end_to_end}
use cant.Isotp.Faults.{IsSound, process_frame-IsSound, out_of_sequence_given_out, process_ends}

abbrev config : IsotpConfig
config = record {
  rx_id = 0x7e8;
  tx_id = 0x7e8;
  extended_addressing = false;
  stmin = 10;
  blocksize = 8;
  timeout_ms = 100;
}

abbrev zeroes : List ℕ
zeroes = replicate max_payload 0

abbrev node : Isotp Bus
node = record {
  can_driver = [];
  config = config;
  tx_state = record {
    buffer = zeroes;
    length = 0;
    offset = 0;
    sequence = 0;
    timer = idle_timer;
    waiting_fc = false;
    block_counter = 0;
  };
  rx_state = record {
    buffer = zeroes;
    length = 0;
    offset = 0;
    sequence = 0;
    timer = idle_timer;
    receiving_multi = false;
  };
}

abbrev message : List ℕ
message = 1 ∷ 2 ∷ 3 ∷ 4 ∷ 5 ∷ 6 ∷ 7 ∷ 8 ∷ 9 ∷ 10 ∷ []

abbrev room : List ℕ
room = 99 ∷ 99 ∷ 99 ∷ 99 ∷ 99 ∷ 99 ∷ 99 ∷ 99 ∷ 99 ∷ 99 ∷ 99 ∷ 99 ∷ []

end_to_end_example :
    let alone = process_frames bus_transmit bus_receive node (frames_of 0 0 node message 10) in
    let t' = process_frames bus_transmit bus_receive node (frames_of 10 0 node message 10) in
    let (_, out', len', accepted) = receive (some t') (some room) (some 0) in
    ((receive (some alone) (some room) (some 0)).3 ≡ leb 10 7)
    × (out' ≡ some (1 ∷ 2 ∷ 3 ∷ 4 ∷ 5 ∷ 6 ∷ 7 ∷ 8 ∷ 9 ∷ 10 ∷ 99 ∷ 99 ∷ []))
    × (len' ≡ some 10)
    × (accepted ≡ true)
end_to_end_example =
    end_to_end node refl (omega arith) 0 10 message 10 bus_transmit bus_receive node room 0
      (length-replicate {A = ℕ} 4095 0) refl (length-replicate {A = ℕ} 4095 0) (omega arith)
      (omega arith) (omega arith) (omega arith)

-- In the middle of a message of 20 bytes, waiting for the frame of sequence number 1.
abbrev busy : RxState
busy = record {
  buffer = zeroes;
  length = 20;
  offset = 6;
  sequence = 1;
  timer = idle_timer;
  receiving_multi = true;
}

abbrev busy_node : Isotp Bus
busy_node = record node { rx_state = busy }

-- A consecutive frame of sequence number 5.
abbrev stray : CanFrame
stray = record (blank 0x7e8 8) { bytes = 0x25 ∷ replicate 63 7 }

busy-IsSound : IsSound busy
busy-IsSound = record {
  array = length-replicate {A = ℕ} 4095 0;
  small = omega arith;
  in_sequence = omega arith;
  within = omega arith;
  next_segment = λ _. inl (omega arith);
}

process_frame-IsSound_example :
    IsSound (process_frame bus_transmit bus_receive busy_node stray).rx_state
process_frame-IsSound_example =
    process_frame-IsSound bus_transmit bus_receive busy_node stray refl busy-IsSound

out_of_sequence_given_out_example :
    let t' = process_frame bus_transmit bus_receive busy_node stray in
    let (_, out', len', accepted) = receive (some t') (some zeroes) (some 0) in
    (out' ≡ some (take 20 zeroes ++ drop 20 zeroes)) × (len' ≡ some 20) × (accepted ≡ true)
out_of_sequence_given_out_example =
    out_of_sequence_given_out bus_transmit bus_receive busy_node stray zeroes 0 refl refl
      (omega arith) refl (omega arith)

-- A driver whose state is the frames that are still to be handed out.
abbrev queue_transmit : List CanFrame → CanFrame → ℕ → List CanFrame × Bool
queue_transmit q f ms = (q, true)

abbrev queue_receive : List CanFrame → List CanFrame × Option CanFrame
queue_receive [] = ([], none)
queue_receive (f ∷ q) = (q, some f)

queue_falls :
    (q : List CanFrame) (f : CanFrame)
    → (queue_receive q).1 ≡ some f
    → length (queue_receive q).0 < length q
queue_falls [] f e = cc
queue_falls (g ∷ q) f e = omega arith

process_ends_example :
    (r : Isotp (List CanFrame)) × (process queue_transmit queue_receive 3 0
        (some (record busy_node { can_driver = stray ∷ stray ∷ [] }))
      ≡ some (some r))
process_ends_example =
    process_ends queue_transmit queue_receive length queue_falls (λ q f ms. omega arith) 3 0
      (record busy_node { can_driver = stray ∷ stray ∷ [] }) (omega arith)
