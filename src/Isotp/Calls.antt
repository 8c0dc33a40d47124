-- ===== src/Isotp/Calls.antt =====
-- The functions of src/runtime/protocols/isotp.c over a CAN driver. `can_transmit` is given a frame
-- and a timeout; `can_receive` hands out the next received frame, if there is one.
use cant.Prelude.{
  ℕ, zero, suc, ◌/◌, Bool, true, false, not, ◌&&◌, ◌||◌, Option, none, some, List, ltb, leb, ◌==◌,
  if◌then◌else◌, get_or, replicate, memcpy,
}
use cant.Timer
use cant.Timer.{Timer}
use cant.Isotp.{
  CanFrame, IsotpConfig, Isotp, single_frame, first_frame, consecutive_frame, flow_control,
  started_tx, advanced_tx, single_rx, first_rx, consecutive_rx, first_length, max_payload,
  single_frame_type, first_frame_type, consecutive_frame_type,
}

abbrev pub idle_timer : Timer
idle_timer = record { start_time = 0; timeout = 0; running = false }

-- `isotp_create`; `memory` says whether `calloc` succeeds. `isotp_destroy` only frees.
unfoldable pub create : {D : Type 0} → Option D → Option IsotpConfig → Bool → Option (Isotp D)
create none config memory = none
create (some d) none memory = none
create (some d) (some c) false = none
create (some d) (some c) true = some (record {
  can_driver = d;
  config = c;
  tx_state = record {
    buffer = replicate max_payload 0;
    length = 0;
    offset = 0;
    sequence = 0;
    timer = idle_timer;
    waiting_fc = false;
    block_counter = 0;
  };
  rx_state = record {
    buffer = replicate max_payload 0;
    length = 0;
    offset = 0;
    sequence = 0;
    timer = idle_timer;
    receiving_multi = false;
  };
})

-- The body of `isotp_receive`: the array and the length that it writes, and its result.
receive_message :
    {D : Type 0} → Isotp D → List ℕ → ℕ → Option (Isotp D) × Option (List ℕ) × Option ℕ × Bool
receive_message t out length =
    let rx = t.rx_state in
    if not rx.receiving_multi && ltb 0 rx.length
    then (
      some (record t { rx_state = record rx { length = 0 } }),
      some (memcpy out 0 rx.buffer rx.length),
      some rx.length,
      true,
    )
    else (some t, some out, some length, false)

-- `isotp_receive`; its `timeout_ms` is not used.
unfoldable pub receive :
    {D : Type 0}
    → Option (Isotp D)
    → Option (List ℕ)
    → Option ℕ
    → Option (Isotp D) × Option (List ℕ) × Option ℕ × Bool
unfolding receive_message
receive none out length = (none, out, length, false)
receive (some t) none length = (some t, none, length, false)
receive (some t) (some out) none = (some t, some out, none, false)
receive (some t) (some out) (some length) = receive_message t out length

module _ {D : Type 0} (can_transmit : D → CanFrame → ℕ → D × Bool)
    (can_receive : D → D × Option CanFrame) where
  send : Isotp D → CanFrame → Isotp D × Bool
  send t f =
      let (d, done) = can_transmit t.can_driver f t.config.timeout_ms in
      (record t { can_driver = d }, done)

  -- `send_single_frame`
  unfoldable pub send_single_frame : Isotp D → List ℕ → ℕ → Isotp D × Bool
  unfolding send
  send_single_frame t src n = send t (single_frame t.config src n)

  -- `send_first_frame`
  unfoldable pub send_first_frame : ℕ → Isotp D → List ℕ → ℕ → Isotp D × Bool
  unfolding send
  send_first_frame now t src n =
      send (record t { tx_state = started_tx t.config now t.tx_state n })
        (first_frame t.config src n)

  -- `send_consecutive_frame`
  unfoldable pub send_consecutive_frame : Isotp D → Isotp D × Bool
  unfolding send
  send_consecutive_frame t =
      send (record t { tx_state = advanced_tx t.tx_state }) (consecutive_frame t.config t.tx_state)

  transmit_bytes : ℕ → Isotp D → List ℕ → ℕ → Isotp D × Bool
  unfolding send_single_frame send_first_frame
  transmit_bytes now t src n =
      if n == 0 || ltb max_payload n
      then (t, false)
      else if leb n 7
      then send_single_frame t src n
      else send_first_frame now
          (record t { tx_state = record t.tx_state { buffer = memcpy t.tx_state.buffer 0 src n } })
          src n

  -- `isotp_transmit`
  unfoldable pub transmit : ℕ → Option (Isotp D) → Option (List ℕ) → ℕ → Option (Isotp D) × Bool
  unfolding transmit_bytes
  transmit now none src n = (none, false)
  transmit now (some t) none n = (some t, false)
  transmit now (some t) (some src) n =
      let (t', done) = transmit_bytes now t src n in (some t', done)

  -- `process_single_frame`
  unfoldable pub process_single_frame : Isotp D → CanFrame → Isotp D
  process_single_frame t f = record t { rx_state = single_rx t.rx_state f }

  -- `process_first_frame`: a length in range starts the reception and sends the flow control.
  unfoldable pub process_first_frame : Isotp D → CanFrame → Isotp D
  unfolding send
  process_first_frame t f =
      if ltb 0 (first_length f) && leb (first_length f) max_payload
      then (send (record t { rx_state = first_rx t.rx_state f }) (flow_control t.config)).0
      else t

  -- `process_consecutive_frame`
  unfoldable pub process_consecutive_frame : Isotp D → CanFrame → Isotp D
  process_consecutive_frame t f = record t { rx_state = consecutive_rx t.rx_state f }

  -- One round of the loop of `isotp_process`; a flow control frame changes nothing.
  unfoldable pub process_frame : Isotp D → CanFrame → Isotp D
  unfolding process_single_frame process_first_frame process_consecutive_frame
  process_frame t f =
      let pci = get_or f.bytes 0 0 / 16 in
      if not (f.id == t.config.rx_id)
      then t
      else if pci == single_frame_type
      then process_single_frame t f
      else if pci == first_frame_type
      then process_first_frame t f
      else if pci == consecutive_frame_type
      then process_consecutive_frame t f
      else t

  -- The loop of `isotp_process` with fuel; `none` means that the fuel ran out.
  unfoldable pub drain : ℕ → Isotp D → Option (Isotp D)
  drain zero t = none
  drain (suc fuel) t =
      let (d, next) = can_receive t.can_driver in
      let t' = record t { can_driver = d } in
      elim next [ none ↦ some t' | some f ↦ drain fuel (process_frame t' f) ]

  -- The timeout test at the end of `isotp_process`.
  unfoldable pub check_timeout : ℕ → Isotp D → Isotp D
  unfolding Timer.expired
  check_timeout now t =
      if t.tx_state.waiting_fc && Timer.expired (some t.tx_state.timer) now
      then record t { tx_state = record t.tx_state { waiting_fc = false } }
      else t

  -- `isotp_process`
  unfoldable pub process : ℕ → ℕ → Option (Isotp D) → Option (Option (Isotp D))
  process fuel now none = some none
  process fuel now (some t) = elim (drain fuel t) [
    | none ↦ none
    | some t' ↦ some (some (check_timeout now t'))
  ]
