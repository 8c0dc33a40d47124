-- ===== src/Isotp/Faults.antt =====
-- The receiver of isotp.c on frames that do not fit, and the loop of `isotp_process`.
use cant.Prelude.{
  inl, inr, Bool-cases, Option-cases, ℕ, zero, suc, ◌+◌, ◌/◌, ◌%◌, ◌≤◌, ◌<◌, ◌≡◌, ◌≢◌, ◌⊎◌, true,
  some, List, ◌++◌, arith, length, get_or, take, drop, memcpy_zero, length-memcpy, length-drop,
}
use cant.Isotp.{
  CanFrame, RxState, Isotp, single_rx, first_rx, consecutive_rx, first_length, segment_size,
  flow_control, max_payload,
}
use cant.Isotp.Calls.{receive, process_frame, drain, process, check_timeout}
use cant.Isotp.Delivery.{Transmit, Receive}

-- What holds of `rx_state` between two frames: its array is whole, the expected sequence number is
-- one of the four bits that a frame carries, the length and the offset do not go past the array,
-- and a message that is being received has its next segment inside it.
pub record IsSound (rx : RxState) : Type 0 where
  pub array : length rx.buffer ≡ max_payload
  pub small : rx.length ≤ max_payload
  pub in_sequence : rx.sequence < 16
  pub within : rx.offset ≤ max_payload
  pub next_segment : rx.receiving_multi ≡ true → (rx.offset < rx.length) ⊎ (rx.offset ≤ 6)

-- A segment that is being received goes inside the array.
segment_in_array :
    (rx : RxState)
    → IsSound rx
    → rx.receiving_multi ≡ true
    → rx.offset + segment_size rx.length rx.offset ≤ max_payload
segment_in_array rx v busy = ground (arith, v.next_segment busy)

single_rx-IsSound :
    (rx : RxState) (f : CanFrame) → length f.bytes ≡ 64 → IsSound rx → IsSound (single_rx rx f)
unfolding single_rx
single_rx-IsSound rx f sized v = ground (
  arith,
  length-drop 1 f.bytes,
  length-memcpy rx.buffer 0 (drop 1 f.bytes) (get_or f.bytes 0 0 % 16),
)

first_rx-IsSound :
    (rx : RxState) (f : CanFrame)
    → length f.bytes ≡ 64
    → first_length f ≤ max_payload
    → IsSound rx
    → IsSound (first_rx rx f)
unfolding first_rx
first_rx-IsSound rx f sized small v =
    ground (arith, length-drop 2 f.bytes, length-memcpy rx.buffer 0 (drop 2 f.bytes) 6)

consecutive_rx-IsSound :
    (rx : RxState) (f : CanFrame) → length f.bytes ≡ 64 → IsSound rx → IsSound (consecutive_rx rx f)
unfolding consecutive_rx
consecutive_rx-IsSound rx f sized v = elim (Bool-cases rx.receiving_multi) [
  | inl busy ↦ ground (
    arith,
    segment_in_array rx v busy,
    length-drop 1 f.bytes,
    length-memcpy rx.buffer rx.offset (drop 1 f.bytes) (segment_size rx.length rx.offset),
  )
  | inr idle ↦ ground arith
]

module _ {D : Type 0} (can_transmit : Transmit D) (can_receive : Receive D) where
  -- Every frame, whatever its 64 bytes hold, keeps `rx_state` sound.
  pub process_frame-IsSound :
      (t : Isotp D) (f : CanFrame)
      → length f.bytes ≡ 64
      → IsSound t.rx_state
      → IsSound (process_frame can_transmit can_receive t f).rx_state
  unfolding process_frame
  process_frame-IsSound t f sized v = ground (
    arith,
    single_rx-IsSound t.rx_state f sized v,
    first_rx-IsSound t.rx_state f sized,
    consecutive_rx-IsSound t.rx_state f sized v,
  )

  -- A frame with another id, a flow control frame or one of an unknown type changes nothing.
  pub process_frame_ignored :
      (t : Isotp D) (f : CanFrame)
      → (f.id ≢ t.config.rx_id) ⊎ (48 ≤ get_or f.bytes 0 0)
      → process_frame can_transmit can_receive t f ≡ t
  unfolding process_frame
  process_frame_ignored t f h = ground arith

  -- A consecutive frame out of sequence ends the reception, and the next `isotp_receive` gives out
  -- the announced number of bytes of the unfinished message as if it were whole.
  pub out_of_sequence_given_out :
      (t : Isotp D) (f : CanFrame) (out : List ℕ) (len : ℕ)
      → f.id ≡ t.config.rx_id
      → get_or f.bytes 0 0 / 16 ≡ 2
      → get_or f.bytes 0 0 % 16 ≢ t.rx_state.sequence
      → t.rx_state.receiving_multi ≡ true
      → 0 < t.rx_state.length
      → let t' = process_frame can_transmit can_receive t f in
        let (_, out', len', done) = receive (some t') (some out) (some len) in
        (out' ≡ some (take t.rx_state.length t.rx_state.buffer ++ drop t.rx_state.length out))
        × (len' ≡ some t.rx_state.length)
        × (done ≡ true)
  unfolding process_frame receive consecutive_rx
  out_of_sequence_given_out t f out len e pci wrong busy pos =
      ground (arith, memcpy_zero out t.rx_state.buffer t.rx_state.length)

  module _ (pending : D → ℕ)
      (falls : (d : D) (f : CanFrame)
        → (can_receive d).1 ≡ some f
        → pending (can_receive d).0 < pending d)
      (keeps : (d : D) (f : CanFrame) (ms : ℕ) → pending (can_transmit d f ms).0 ≤ pending d) where
    process_frame-pending :
        (t : Isotp D) (f : CanFrame)
        → pending (process_frame can_transmit can_receive t f).can_driver ≤ pending t.can_driver
    unfolding process_frame
    process_frame-pending t f =
        ground (arith, keeps t.can_driver (flow_control t.config) t.config.timeout_ms)

    drain_ends :
        (fuel : ℕ) (t : Isotp D)
        → pending t.can_driver < fuel
        → (r : Isotp D) × (drain can_transmit can_receive fuel t ≡ some r)
    unfolding drain
    drain_ends zero t h = elim h [ ]
    drain_ends (suc fuel) t h = elim (Option-cases (can_receive t.can_driver).1) [
      | inl last ↦ (record t { can_driver = (can_receive t.can_driver).0 }, rw (last, drain))
      | inr (f, next) ↦
          let t' : Isotp D = record t { can_driver = (can_receive t.can_driver).0 } in
          rw (next, drain)
            (drain_ends fuel (process_frame can_transmit can_receive t' f)
              (omega (arith, process_frame-pending t' f, falls t.can_driver f next)))
    ]

    -- `isotp_process` ends: where a number falls with each frame that the driver hands out and
    -- does not grow when a frame is sent, more fuel than that number gives a result.
    pub process_ends :
        (fuel now : ℕ) (t : Isotp D)
        → pending t.can_driver < fuel
        → (r : Isotp D) × (process can_transmit can_receive fuel now (some t) ≡ some (some r))
    unfolding process
    process_ends fuel now t h =
        let (r, e) = drain_ends fuel t h in
        (check_timeout can_transmit can_receive now r, rw (e, process))
